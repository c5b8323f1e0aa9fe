-- ===== src/SlidingWindow/Queue.antt =====
-- 239.c: the queue of indices that the live part of `dq` holds, between two rounds of the loop.
use leetcode.Base.{
  ℕ, zero, suc, ◌+◌, ◌-◌, ◌≤◌, ◌<◌, ◌≡◌, refl, sym, subst, ltb, ◌==◌, update, update-cases, arith,
  Bool-cases, inl, inr, ==_iff,
}
use leetcode.Base.Int.{ℤ, ltb_ℤ, ◌≤ℤ◌, ◌<ℤ◌, ltb→lt_ℤ, ltb_false→le_ℤ}
use leetcode.SlidingWindow.{Ints, drop_back}

module _ (nums : Ints) where
  -- Of `dq`, the part from `h` up to `t`: indices below `i` of rising order and falling values, each
  -- with `a ≤` it, such that every index from `a` to `i` has a later one whose value is as large.
  pub record IsQueue (a i : ℕ) (dq : ℕ → ℕ) (h t : ℕ) : Type 0 where
    pub sizes : (h ≤ t) × (t ≤ i)
    pub known : (p : ℕ) → h ≤ p → p < t → (a ≤ dq p) × (dq p < i)
    pub falls : (p q : ℕ) → h ≤ p → p < q → q < t → (dq p < dq q) × (nums (dq q) <ℤ nums (dq p))
    pub covers :
        (e : ℕ) → a ≤ e → e < i → (p : ℕ) × (h ≤ p) × (p < t) × (e ≤ dq p) × (nums e ≤ℤ nums (dq p))

  pub drop_back_lem :
      (dq : ℕ → ℕ) (h : ℕ) (x : ℤ) (t : ℕ)
      → h ≤ t
      → (h ≤ drop_back nums dq h x t)
        × (drop_back nums dq h x t ≤ t)
        × ((p : ℕ) → drop_back nums dq h x t ≤ p → p < t → nums (dq p) ≤ℤ x)
        × ((p : ℕ) → h ≤ p → p + 1 ≡ drop_back nums dq h x t → x <ℤ nums (dq p))
  unfolding drop_back
  drop_back_lem dq h x zero l =
      (l, omega arith, λ p a b. absurd (omega (arith, b)), λ p a b. absurd (omega (arith, b)))
  drop_back_lem dq h x (suc t) l = elim (Bool-cases (ltb h (suc t))) [
    | inl s ↦ elim (Bool-cases (ltb_ℤ x (nums (dq t)))) [
      | inl m ↦
          rw (s, m)
            (
              l,
              omega arith,
              λ p b c. absurd (omega (arith, b, c)),
              λ p b e.
                  subst (λ q. x <ℤ nums (dq q)) {x = t} (omega (arith, e))
                    (ltb→lt_ℤ x (nums (dq t)) m),
            )
      | inr m ↦
          (let ih = drop_back_lem dq h x t (ground (arith, s)) in
            rw (s, m)
              (
                ih.0,
                omega (arith, ih.1),
                λ p b c. elim (Bool-cases (p == t)) [
                  | inl e ↦ rw ((==_iff p t).0 e) (ltb_false→le_ℤ x (nums (dq t)) m)
                  | inr e ↦ ih.2 p b (ground (arith, c, e))
                ],
                ih.3,
              ))
    ]
    | inr s ↦ rw s (
      l,
      omega arith,
      λ p b c. absurd (omega (arith, b, c)),
      λ p b e. absurd (ground (arith, s, b, e)),
    )
  ]

  -- An index that leaves the window.
  pub expire-IsQueue :
      (a i : ℕ) (dq : ℕ → ℕ) (h t : ℕ)
      → IsQueue a i dq h t
      → h < t
      → dq h ≤ a
      → IsQueue (a + 1) i dq (h + 1) t
  expire-IsQueue a i dq h t w l e = record {
    sizes = (omega (arith, l), w.sizes.1);
    known = λ p b c.
        let f = w.falls h p (omega arith) (omega (arith, b)) c in
        let g = w.known h (omega arith) l in
        (omega (arith, f.0, g.0), (w.known p (omega (arith, b)) c).1);
    falls = λ p q b c d. w.falls p q (omega (arith, b)) c d;
    covers = λ e' b c.
        let (p, d, f, g, m) = w.covers e' (omega (arith, b)) c in
        (
          p,
          elim (Bool-cases (p == h)) [
            | inl s ↦ absurd (omega (arith, b, e, subst (λ q. e' ≤ dq q) ((==_iff p h).0 s) g))
            | inr s ↦ ground (arith, s, d)
          ],
          f,
          g,
          m,
        );
  }

  pub keep-IsQueue :
      (a i : ℕ) (dq : ℕ → ℕ) (h t : ℕ)
      → IsQueue a i dq h t
      → (h < t → a < dq h)
      → IsQueue (a + 1) i dq h t
  keep-IsQueue a i dq h t w e = record {
    sizes = w.sizes;
    known = λ p b c. (
      elim (Bool-cases (p == h)) [
        | inl s ↦
            subst (λ q. a + 1 ≤ dq q) (sym ((==_iff p h).0 s))
              (omega (arith, e (omega (arith, b, c))))
        | inr s ↦
            (let f = w.falls h p (omega arith) (ground (arith, b, s)) c in
              let g = w.known h (omega arith) (omega (arith, b, c)) in omega (arith, f.0, g.0))
      ],
      (w.known p b c).1,
    );
    falls = w.falls;
    covers = λ e' b c. w.covers e' (omega (arith, b)) c;
  }

  -- What the array holds after the write, below the new end and at it.
  old_cell : (dq : ℕ → ℕ) (t i p : ℕ) → p < t → update dq t i p ≡ dq p
  old_cell dq t i p l = ground (arith, l)

  new_cell : (dq : ℕ → ℕ) (t i p : ℕ) → p ≡ t → update dq t i p ≡ i
  new_cell dq t i p e = ground (arith, e)

  -- The entries below `t'` are larger than the new value.
  above :
      (a i : ℕ) (dq : ℕ → ℕ) (h t : ℕ)
      → IsQueue a i dq h t
      → (p : ℕ) → h ≤ p
      → p < drop_back nums dq h (nums i) t
      → nums i <ℤ nums (dq p)
  above a i dq h t w p b c =
      let (_, l, _, f) = drop_back_lem dq h (nums i) t w.sizes.0 in
      elim (Bool-cases (ltb (p + 1) (drop_back nums dq h (nums i) t))) [
        | inl s ↦
            (let q = drop_back nums dq h (nums i) t - 1 in
              let g = w.falls p q b (ground (arith, s)) (omega (arith, l, c)) in
              let m = f q (ground (arith, s, b)) (omega (arith, c)) in omega (arith, g.1, m))
        | inr s ↦ f p b (ground (arith, s, c))
      ]

  -- The new entry covers what it is not smaller than.
  new_cover :
      (a i : ℕ) (dq : ℕ → ℕ) (h t : ℕ)
      → IsQueue a i dq h t
      → (e : ℕ) → e ≤ i
      → nums e ≤ℤ nums i
      → let t' = drop_back nums dq h (nums i) t in
        (p : ℕ) × (h ≤ p)
        × (p < t' + 1)
        × (e ≤ update dq t' i p)
        × (nums e ≤ℤ nums (update dq t' i p))
  new_cover a i dq h t w e l m =
      let t' = drop_back nums dq h (nums i) t in
      let c = subst (λ v. (e ≤ v) × (nums e ≤ℤ nums v)) (sym (new_cell dq t' i t' refl)) (l, m) in
      (t', (drop_back_lem dq h (nums i) t w.sizes.0).0, omega arith, c.0, c.1)

  pub push-IsQueue :
      (a i : ℕ) (dq : ℕ → ℕ) (h t : ℕ)
      → IsQueue a i dq h t
      → a ≤ i
      → let t' = drop_back nums dq h (nums i) t in IsQueue a (i + 1) (update dq t' i) h (t' + 1)
  push-IsQueue a i dq h t w l =
      let t' = drop_back nums dq h (nums i) t in
      let (low, high, dropped, _) = drop_back_lem dq h (nums i) t w.sizes.0 in
      record {
        sizes = (omega (arith, low), omega (arith, high, w.sizes.1));
        known = λ p b c.
            update-cases (λ v. (a ≤ v) × (v < i + 1)) dq t' i p (λ e. (l, omega arith))
              (λ n. let k = w.known p b (omega (arith, n, c, high)) in (k.0, omega (arith, k.1)));
        falls = λ p q b c d.
            subst (λ u. (u < update dq t' i q) × (nums (update dq t' i q) <ℤ nums u))
              (sym (old_cell dq t' i p (omega (arith, c, d))))
              (update-cases (λ v. (dq p < v) × (nums v <ℤ nums (dq p))) dq t' i q
                (λ e. (
                  (w.known p b (omega (arith, c, d, high))).1,
                  above a i dq h t w p b (omega (arith, c, d)),
                ))
                (λ n. w.falls p q b c (omega (arith, n, d, high))));
        covers = λ e b c. elim (Bool-cases (e == i)) [
          | inl s ↦
              new_cover a i dq h t w e (omega (arith, (==_iff e i).0 s))
                (rw ((==_iff e i).0 s) (omega arith))
          | inr s ↦
              (let (p, d, f, g, m) = w.covers e b (ground (arith, c, s)) in
                elim (Bool-cases (ltb p t')) [
                  | inl r ↦
                      (let old =
                          subst (λ v. (e ≤ v) × (nums e ≤ℤ nums v))
                            (sym (old_cell dq t' i p (ground (arith, r)))) (g, m) in
                        (p, d, ground (arith, r), old.0, old.1))
                  | inr r ↦
                      new_cover a i dq h t w e (ground (arith, c))
                        (let n = dropped p (ground (arith, r)) f in omega (arith, m, n))
                ])
        ];
      }
