-- ===== src/SlidingWindow/Maxima.antt =====
-- 239.c: the results are the maxima of the windows, and the indices stay in their arrays.
use leetcode.Base.{
  ℕ, zero, suc, ◌+◌, ◌-◌, ◌≤◌, ◌<◌, ◌≡◌, refl, sym, subst, false, ◌&&◌, ◌||◌, ltb, leb, ◌==◌,
  update-cases, arith, Bool-cases, inl, inr, ==_iff, some,
}
use leetcode.Base.Int.{ℤ, pos, ◌≤ℤ◌}
use leetcode.SlidingWindow.{Ints, Window, expire, push, emit, slide, slides, max_sliding_window}
use leetcode.SlidingWindow.Queue.{IsQueue, expire-IsQueue, keep-IsQueue, push-IsQueue}

abbrev start : (ℕ → ℕ) → Ints → Window
start dq result = record { dq = dq; head = 0; tail = 0; result = result }

valid_size : (n k : ℕ) → 0 < k → k ≤ n → (n == 0 || k == 0 || ltb n k) ≡ false
valid_size n k l m = ground (arith, l, m)

module _ (nums : Ints) where
  -- `v` is the largest of the `k` elements from index `j` on.
  abbrev pub IsMaximum : (j k : ℕ) → ℤ → Type 0
  IsMaximum j k v =
      ((e : ℕ) × (j ≤ e) × (e < j + k) × (v ≡ nums e)) × ((e : ℕ) → j ≤ e → e < j + k → nums e ≤ℤ v)

  front-IsMaximum :
      (a k i : ℕ) (dq : ℕ → ℕ) (h t : ℕ)
      → IsQueue nums a (i + 1) dq h t
      → 0 < k
      → a + k ≡ i + 1
      → IsMaximum a k (nums (dq h))
  front-IsMaximum a k i dq h t w l e =
      let (p, b, c, _, _) = w.covers i (omega (arith, l, e)) (omega arith) in
      let front = w.known h (omega arith) (omega (arith, b, c)) in
      (
        (dq h, front.0, omega (arith, front.1, e), refl),
        λ x m n.
            let (q, d, f, _, g) = w.covers x m (omega (arith, n, e)) in
            elim (Bool-cases (q == h)) [
              | inl s ↦ subst (λ z. nums x ≤ℤ nums (dq z)) ((==_iff q h).0 s) g
              | inr s ↦
                  (let r = w.falls h q (omega arith) (ground (arith, d, s)) f in
                    omega (arith, r.1, g))
            ],
      )

  -- The state before round `i`.
  record IsSlid (k i : ℕ) (w : Window) : Type 0 where
    queue : IsQueue nums (i - k) i w.dq w.head w.tail
    maxima : (j : ℕ) → j + k ≤ i → IsMaximum j k (w.result j)

  -- No index leaves the window.
  kept :
      (k i : ℕ) (w : Window)
      → 0 < k
      → (w.head < w.tail → i < w.dq w.head + k)
      → IsQueue nums (i - k) i w.dq w.head w.tail
      → IsQueue nums (i + 1 - k) i w.dq w.head w.tail
  kept k i w l e q = elim (Bool-cases (leb k i)) [
    | inl s ↦
        subst (λ a. IsQueue nums a i w.dq w.head w.tail) {x = i - k + 1} (ground (arith, s))
          (keep-IsQueue nums (i - k) i _ _ _ q (λ b. let c = e b in ground (arith, s, c)))
    | inr s ↦ subst (λ a. IsQueue nums a i w.dq w.head w.tail) {x = i - k} (ground (arith, s)) q
  ]

  expired :
      (k i : ℕ) (w : Window)
      → 0 < k
      → IsQueue nums (i - k) i w.dq w.head w.tail
      → IsQueue nums (i + 1 - k) i (expire k i w).dq (expire k i w).head (expire k i w).tail
  unfolding expire
  expired k i w l q = elim (Bool-cases (ltb w.head w.tail)) [
    | inl s ↦ elim (Bool-cases (leb (w.dq w.head + k) i)) [
      | inl r ↦
          rw (s, r)
            (subst (λ a. IsQueue nums a i w.dq (w.head + 1) w.tail) {x = i - k + 1}
              (ground (arith, r))
              (expire-IsQueue nums (i - k) i _ _ _ q (ground (arith, s)) (ground (arith, r))))
      | inr r ↦ rw (s, r) (kept k i w l (λ _. ground (arith, r)) q)
    ]
    | inr s ↦ rw s (kept k i w l (λ b. absurd (ground (arith, s, b))) q)
  ]

  expire-result : (k i : ℕ) (w : Window) → (expire k i w).result ≡ w.result
  unfolding expire
  expire-result k i w = elim (Bool-cases (ltb w.head w.tail && leb (w.dq w.head + k) i)) [
    | inl e ↦ rw e refl
    | inr e ↦ rw e refl
  ]

  emitted :
      (k i : ℕ) (w : Window)
      → 0 < k
      → IsQueue nums (i + 1 - k) (i + 1) w.dq w.head w.tail
      → ((j : ℕ) → j + k ≤ i → IsMaximum j k (w.result j))
      → IsSlid k (i + 1) (emit nums k i w)
  unfolding emit
  emitted k i w l q m = elim (Bool-cases (leb k (i + 1))) [
    | inl s ↦ rw s (record {
      queue = q;
      maxima = λ j b.
          update-cases (IsMaximum j k) w.result (i + 1 - k) (nums (w.dq w.head)) j
            (λ e.
              subst (λ z. IsMaximum z k (nums (w.dq w.head))) (sym e)
                (front-IsMaximum (i + 1 - k) k i _ _ _ q l (ground (arith, s))))
            (λ n. m j (omega (arith, n, b)));
    })
    | inr s ↦ rw s (record { queue = q; maxima = λ j b. absurd (ground (arith, s, b)) })
  ]

  slide-IsSlid : (k i : ℕ) (w : Window) → 0 < k → IsSlid k i w → IsSlid k (i + 1) (slide nums k i w)
  unfolding slide push
  slide-IsSlid k i w l s =
      emitted k i (push nums i (expire k i w)) l
        (push-IsQueue nums (i + 1 - k) i _ _ _ (expired k i w l s.queue) (omega (arith, l)))
        (λ j b. subst (λ r. IsMaximum j k (r j)) (sym (expire-result k i w)) (s.maxima j b))

  slides-IsSlid :
      (k n i : ℕ) (w : Window) → 0 < k → IsSlid k i w → IsSlid k (i + n) (slides nums k n i w)
  unfolding slides
  slides-IsSlid k zero i w l s = subst (λ m. IsSlid k m w) (omega arith) s
  slides-IsSlid k (suc n) i w l s =
      subst (λ m. IsSlid k m (slides nums k (suc n) i w)) {x = i + 1 + n} (omega arith)
        (slides-IsSlid k n (i + 1) (slide nums k i w) l (slide-IsSlid k i w l s))

  start-IsSlid : (k : ℕ) (dq : ℕ → ℕ) (result : Ints) → 0 < k → IsSlid k 0 (start dq result)
  start-IsSlid k dq result l = record {
    queue = record {
      sizes = (omega arith, omega arith);
      known = λ p b c. absurd (omega (arith, c));
      falls = λ p q b c d. absurd (omega (arith, d));
      covers = λ e b c. absurd (omega (arith, c));
    };
    maxima = λ j b. absurd (omega (arith, b, l));
  }

  run-IsSlid :
      (dq : ℕ → ℕ) (result : Ints) (k n : ℕ)
      → 0 < k
      → IsSlid k n (slides nums k n 0 (start dq result))
  run-IsSlid dq result k n l =
      subst (λ m. IsSlid k m (slides nums k n 0 (start dq result))) {x = 0 + n} (omega arith)
        (slides-IsSlid k n 0 (start dq result) l (start-IsSlid k dq result l))

-- For a window size from 1 to the length of the array, maxSlidingWindow returns an array of
-- nums_size - k + 1 elements, and the element at j is the largest of the k numbers from index j on.
-- The two arrays may hold anything when they are allocated.
pub max_sliding_window-IsMaximum :
    (dq : ℕ → ℕ) (result nums : Ints) (nums_size k : ℕ)
    → 0 < k
    → k ≤ nums_size
    → (r : Ints) × (max_sliding_window dq result nums nums_size (pos k)
        ≡ some (r, nums_size - k + 1))
      × ((j : ℕ) → j < nums_size - k + 1 → IsMaximum nums j k (r j))
unfolding max_sliding_window
max_sliding_window-IsMaximum dq result nums nums_size k l m =
    let s = run-IsSlid nums dq result k nums_size l in
    (
      (slides nums k nums_size 0 (start dq result)).result,
      rw (valid_size nums_size k l m) refl,
      λ j b. s.maxima j (omega (arith, b, m)),
    )

-- After any number of rounds of the loop, with a positive window size, 0 <= head <= tail <= the
-- number of rounds, and the live part of the array `dq` holds indices below that number, in rising
-- order: the writes to `dq` and the reads of `nums` stay inside the arrays.
pub slides-bounds :
    (dq : ℕ → ℕ) (result nums : Ints) (k rounds : ℕ)
    → 0 < k
    → let w = slides nums k rounds 0 (record { dq = dq; head = 0; tail = 0; result = result }) in
      (w.head ≤ w.tail)
      × (w.tail ≤ rounds)
      × ((p : ℕ) → w.head ≤ p → p < w.tail → w.dq p < rounds)
      × ((p q : ℕ) → w.head ≤ p → p < q → q < w.tail → w.dq p < w.dq q)
slides-bounds dq result nums k rounds l =
    let s = (run-IsSlid nums dq result k rounds l).queue in
    (s.sizes.0, s.sizes.1, λ p b c. (s.known p b c).1, λ p q b c d. (s.falls p q b c d).0)
