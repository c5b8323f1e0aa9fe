-- ===== src/RangeSum/Merge.antt =====
-- 327.c: what `cache` holds while the two halves are merged.
use leetcode.Base.{
  ℕ, zero, suc, ◌+◌, ◌-◌, ◌≤◌, ◌<◌, ◌≡◌, refl, ap, subst, Bool, true, false, ◌&&◌, ltb, leb, ◌==◌,
  if◌then◌else◌, arith, Bool-cases, inl, inr, update, update-cases,
}
use leetcode.Base.Int.{ℤ, ◌≤ℤ◌}
use leetcode.RangeSum.{Ints, Merged, append, copy_while, copy_back}
use leetcode.RangeSum.Sums.{sum, sum-ext, sum-split}
use leetcode.RangeSum.Pointers.{IsRising}

-- A value behind the first `r` cells.
sum-one : (f : ℤ → ℕ) (a : Ints) (l : ℕ) → sum f a l 1 ≡ f (a l)
unfolding sum
sum-one f a l = omega arith

pub sum-last : (f : ℤ → ℕ) (a : Ints) (l n : ℕ) → sum f a l (n + 1) ≡ sum f a l n + f (a (l + n))
sum-last f a l n = omega (arith, sum-split f a l n 1, sum-one f a (l + n))

old_cell : (c : Ints) (r : ℕ) (v : ℤ) (p : ℕ) → p < r → update c r v (0 + p) ≡ c (0 + p)
old_cell c r v p l =
    update-cases (λ u. u ≡ c (0 + p)) c r v (0 + p) (λ e. absurd (omega (arith, e, l))) (λ _. refl)

new_cell : (c : Ints) (r : ℕ) (v : ℤ) → update c r v (0 + r) ≡ v
new_cell c r v = update-cases (λ u. u ≡ v) c r v (0 + r) (λ _. refl) (λ n. absurd (n (omega arith)))

sum-update :
    (f : ℤ → ℕ) (c : Ints) (r : ℕ) (v : ℤ) → sum f (update c r v) 0 (r + 1) ≡ sum f c 0 r + f v
sum-update f c r v =
    let e = sum-last f (update c r v) 0 r in
    let same = sum-ext f f (update c r v) c 0 0 r (λ p l. ap f (old_cell c r v p l)) in
    let last = ap f (new_cell c r v) in omega (arith, e, same, last)

update-below :
    (c : Ints) (r : ℕ) (v u : ℤ)
    → ((p : ℕ) → p < r → c p ≤ℤ u)
    → v ≤ℤ u
    → (p : ℕ) → p < r + 1
    → update c r v p ≤ℤ u
update-below c r v u h l p b =
    update-cases (λ w. w ≤ℤ u) c r v p (λ _. l) (λ n. h p (omega (arith, n, b)))

update-IsRising :
    (c : Ints) (r : ℕ) (v : ℤ)
    → IsRising c 0 r
    → ((p : ℕ) → p < r → c p ≤ℤ v)
    → IsRising (update c r v) 0 (r + 1)
update-IsRising c r v h l p q _ b d =
    update-cases (λ w. update c r v p ≤ℤ w) c r v q
      (λ _. update-below c r v v l (omega arith) p (omega (arith, b, d)))
      (λ n.
        update-cases (λ w. w ≤ℤ c q) c r v p (λ e. absurd (omega (arith, e, b, n, d)))
          (λ _. h p q (omega arith) b (omega (arith, n, d))))

module _ (s : Ints) (left mid right : ℕ) where
  -- Before round `i`: `cache` holds, in order, what lies before `i` and between `mid` and `t`, and
  -- none of it is larger than what is left.
  pub record IsMerged (i : ℕ) (m : Merged) : Type 0 where
    pub inside : (mid ≤ m.t) × (m.t ≤ right)
    pub size : m.r + left + mid ≡ i + m.t
    pub same : (f : ℤ → ℕ) → sum f m.cache 0 m.r ≡ sum f s left (i - left) + sum f s mid (m.t - mid)
    pub rising : IsRising m.cache 0 m.r
    pub left_above : (q : ℕ) → i ≤ q → q < mid → (p : ℕ) → p < m.r → m.cache p ≤ℤ s q
    pub right_above : (q : ℕ) → m.t ≤ q → q < right → (p : ℕ) → p < m.r → m.cache p ≤ℤ s q

  pub sum_to : (f : ℤ → ℕ) (l n : ℕ) → l ≤ n → sum f s l (n + 1 - l) ≡ sum f s l (n - l) + f (s n)
  sum_to f l n h =
      subst (λ z. sum f s l (n + 1 - l) ≡ sum f s l (n - l) + f (s z)) {x = l + (n - l)}
        (omega (arith, h))
        (subst (λ z. sum f s l z ≡ sum f s l (n - l) + f (s (l + (n - l)))) {x = n - l + 1}
          (omega (arith, h)) (sum-last f s l (n - l)))

  pub append-left :
      (i : ℕ) (m : Merged)
      → IsMerged i m
      → left ≤ i
      → i < mid
      → IsRising s left mid
      → ((q : ℕ) → m.t ≤ q → q < right → s i ≤ℤ s q)
      → IsMerged (i + 1) (append m (s i))
  unfolding append
  append-left i m w l b up above = record {
    inside = w.inside;
    size = omega (arith, w.size);
    same = λ f.
        let e = sum-update f m.cache m.r (s i) in
        let g = w.same f in let d = sum_to f left i l in omega (arith, e, g, d);
    rising = update-IsRising m.cache m.r (s i) w.rising (w.left_above i (omega arith) b);
    left_above = λ q c d.
        update-below m.cache m.r (s i) (s q) (w.left_above q (omega (arith, c)) d)
          (up i q l (omega (arith, c)) d);
    right_above = λ q c d. update-below m.cache m.r (s i) (s q) (w.right_above q c d) (above q c d);
  }

  pub append-right :
      (i : ℕ) (m : Merged)
      → IsMerged i m
      → m.t < right
      → IsRising s mid right
      → ((q : ℕ) → i ≤ q → q < mid → s m.t ≤ℤ s q)
      → IsMerged i (record (append m (s m.t)) { t = m.t + 1 })
  unfolding append
  append-right i m w b up above = record {
    inside = (omega (arith, w.inside.0), omega (arith, b));
    size = omega (arith, w.size);
    same = λ f.
        let e = sum-update f m.cache m.r (s m.t) in
        let g = w.same f in let d = sum_to f mid m.t w.inside.0 in omega (arith, e, g, d);
    rising = update-IsRising m.cache m.r (s m.t) w.rising (w.right_above m.t (omega arith) b);
    left_above = λ q c d. update-below m.cache m.r (s m.t) (s q) (w.left_above q c d) (above q c d);
    right_above = λ q c d.
        update-below m.cache m.r (s m.t) (s q) (w.right_above q (omega (arith, c)) d)
          (up m.t q w.inside.0 (omega (arith, c)) d);
  }

  pub copy_while_lem :
      (test : ℤ → Bool) (i rounds : ℕ) (m : Merged)
      → IsMerged i m
      → right ≤ m.t + rounds
      → IsRising s mid right
      → ((t : ℕ) → t < right → test (s t) ≡ true → (q : ℕ) → i ≤ q → q < mid → s t ≤ℤ s q)
      → let m' = copy_while test s right rounds m in
        IsMerged i m' × (m'.t < right → test (s m'.t) ≡ false)
  unfolding copy_while
  copy_while_lem test i zero m w l up ok = (w, λ b. absurd (omega (arith, l, b)))
  copy_while_lem test i (suc rounds) m w l up ok =
      elim (Bool-cases (ltb m.t right && test (s m.t))) [
        | inl e ↦ rw e (
            copy_while_lem test i rounds (record (append m (s m.t)) { t = m.t + 1 })
              (append-right i m w (ground (arith, e)) up
                (ok m.t (ground (arith, e)) (ground (arith, e))))
              (omega (arith, l)) up ok)
        | inr e ↦ rw e (w, λ b. ground (arith, e, b))
      ]

-- The cells that the last loop writes.
pub copy_back_lem :
    (left : ℕ) (c : Ints) (rounds i : ℕ) (s : Ints) (p : ℕ)
    → copy_back left c rounds i s p
      ≡ (if leb (left + i) p && ltb p (left + i + rounds) then c (p - left) else s p)
unfolding copy_back
copy_back_lem left c zero i s p = ground arith
copy_back_lem left c (suc rounds) i s p =
    let ih = copy_back_lem left c rounds (i + 1) (update s (left + i) (c i)) p in
    elim (Bool-cases (p == left + i)) [
      | inl e ↦
          (let here : c i ≡ c (p - left) = ap c (ground (arith, e)) in ground (arith, ih, e, here))
      | inr e ↦ ground (arith, ih, e)
    ]
