-- ===== src/RangeSum/Sums.antt =====
-- 327.c: sums of a function over a part of an array, and the pairs that the property counts.
use leetcode.Base.{ℕ, zero, suc, ◌+◌, ◌<◌, ◌≡◌, refl, sym, subst, ◌&&◌, not, if◌then◌else◌, arith}
use leetcode.Base.Int.{ℤ, ltb_ℤ, ◌-ℤ◌}
use leetcode.RangeSum.{Ints}

-- f(a[l]) + ... + f(a[l + n - 1])
unfoldable pub sum : (f : ℤ → ℕ) → (a : Ints) → (l n : ℕ) → ℕ
sum f a l zero = 0
sum f a l (suc n) = f (a l) + sum f a (l + 1) n

-- 1 if y - x is in the range.
unfoldable pub in_range : (lower upper x y : ℤ) → ℕ
in_range lower upper x y = if not (ltb_ℤ (y -ℤ x) lower) && not (ltb_ℤ upper (y -ℤ x)) then 1 else 0

-- How many pairs of indices p < q from `l` on have a[q] - a[p] in the range.
unfoldable pub pairs : (lower upper : ℤ) → (a : Ints) → (l n : ℕ) → ℕ
pairs lower upper a l zero = 0
pairs lower upper a l (suc n) =
    sum (in_range lower upper (a l)) a (l + 1) n + pairs lower upper a (l + 1) n

-- The pairs of an index in the one part and an index in the other.
abbrev pub cross : (lower upper : ℤ) → (a : Ints) → (l n l' n' : ℕ) → ℕ
cross lower upper a l n l' n' = sum (λ x. sum (in_range lower upper x) a l' n') a l n

zero_left : (n : ℕ) → 0 + n ≡ n
zero_left n = omega arith

zero_right : (n : ℕ) → n + 0 ≡ n
zero_right n = omega arith

suc_left : (n m : ℕ) → suc n + m ≡ suc (n + m)
suc_left n m = omega arith

suc_right : (l n : ℕ) → l + suc n ≡ l + 1 + n
suc_right l n = omega arith

pub sum-ext :
    (f g : ℤ → ℕ) (a b : Ints) (l m n : ℕ)
    → ((p : ℕ) → p < n → f (a (l + p)) ≡ g (b (m + p)))
    → sum f a l n ≡ sum g b m n
unfolding sum
sum-ext f g a b l m zero h = refl
sum-ext f g a b l m (suc n) h =
    let first = h 0 (omega arith) in
    let rest =
      sum-ext f g a b (l + 1) (m + 1) n
        (λ p b'. rw (sym (suc_right l p), sym (suc_right m p)) (h (suc p) (omega (arith, b')))) in
    rw (rest, sym (zero_right l), sym (zero_right m)) (rw first refl)

pub sum-split :
    (f : ℤ → ℕ) (a : Ints) (l n m : ℕ) → sum f a l (n + m) ≡ sum f a l n + sum f a (l + n) m
unfolding sum
sum-split f a l zero m = rw (zero_left m, zero_right l) (omega arith)
sum-split f a l (suc n) m =
    rw (suc_left n m, suc_right l n) (omega (arith, sum-split f a (l + 1) n m))

pub pairs-split :
    (lower upper : ℤ) (a : Ints) (l n m : ℕ)
    → pairs lower upper a l (n + m)
      ≡ pairs lower upper a l n + pairs lower upper a (l + n) m + cross lower upper a l n (l + n) m
unfolding pairs sum
pairs-split lower upper a l zero m = rw (zero_left m, zero_right l) (omega arith)
pairs-split lower upper a l (suc n) m =
    let x = sum-split (in_range lower upper (a l)) a (l + 1) n m in
    let y = pairs-split lower upper a (l + 1) n m in
    subst
      (λ z.
        pairs lower upper a l (suc n + m)
        ≡ pairs lower upper a l (suc n)
          + pairs lower upper a z m
          + cross lower upper a l (suc n) z m)
      (sym (suc_right l n)) (rw (suc_left n m) (omega (arith, x, y)))
