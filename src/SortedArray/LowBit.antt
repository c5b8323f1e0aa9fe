-- ===== src/SortedArray/LowBit.antt =====
-- 1649.c: what index & -index is, and which indices the loop of update goes through.
use Prim.Native.Nat.{bit_and-bitwise, digits, min}
use leetcode.Base.{
  ℕ, zero, suc, ◌+◌, ◌-◌, ◌*◌, ◌/◌, ◌%◌, ◌^◌, ◌≤◌, ◌<◌, ◌≡◌, ◌≢◌, refl, subst, sym, arith, inl, inr,
  ◌⊎◌,
}
use leetcode.SortedArray.{low_bit}

-- b is the lowest binary digit of x.
pub data IsLow : (x b : ℕ) → Type 0 where
  odd : {x b : ℕ} (k : ℕ) → x ≡ 2 * k + 1 → b ≡ 1 → IsLow x b
  even : {x b : ℕ} (k c : ℕ) → x ≡ 2 * k → b ≡ 2 * c → IsLow k c → IsLow x b

abbrev and_digits : ℕ → ℕ → ℕ → ℕ
and_digits = digits (λ b. zero) min

double_pow : (w : ℕ) → 2 ^ suc w ≡ 2 * 2 ^ w
double_pow w = omega arith

parity : (n : ℕ) → (n % 2 ≡ 0) ⊎ (n % 2 ≡ 1)
parity n = ground arith

-- The digits of x and those of 2 ^ w - 1 - x have no 1 in common.
complement : (n w x y : ℕ) → x + y + 1 ≡ 2 ^ w → and_digits n x y ≡ 0
complement zero w x y e = refl
complement (suc n) w zero y e = refl
complement (suc n) zero (suc x) y e = absurd (omega (arith, e))
complement (suc n) (suc w) (suc x) y e =
    let s : suc x / 2 + y / 2 + 1 ≡ 2 ^ w = omega (arith, e, double_pow w) in
    let ih = complement n w (suc x / 2) (y / 2) s in ground (arith, ih, e, double_pow w)

digits-IsLow : (n w x y : ℕ) → 0 < x → x ≤ n → 0 < y → x + y ≡ 2 ^ w → IsLow x (and_digits n x y)
digits-IsLow n w zero y p h q e = absurd (omega (arith, p))
digits-IsLow zero w (suc x) y p h q e = absurd (omega (arith, h))
digits-IsLow (suc n) zero (suc x) y p h q e = absurd (omega (arith, e, q))
digits-IsLow (suc n) (suc w) (suc x) y p h q e = elim (parity (suc x)) [
  | inl a ↦
      even (suc x / 2) (and_digits n (suc x / 2) (y / 2)) (omega (arith, a))
        (ground (arith, a, e, double_pow w))
        (digits-IsLow n w (suc x / 2) (y / 2) (omega (arith, a)) (omega (arith, h))
          (omega (arith, a, e, q, double_pow w)) (omega (arith, a, e, double_pow w)))
  | inr a ↦ odd (suc x / 2) (omega (arith, a)) (
      let s : suc x / 2 + y / 2 + 1 ≡ 2 ^ w = omega (arith, a, e, double_pow w) in
      ground (arith, a, e, double_pow w, complement n w (suc x / 2) (y / 2) s))
]

pub low_bit-IsLow : (x : ℕ) → 0 < x → x < 4_294_967_296 → IsLow x (low_bit x)
unfolding low_bit
low_bit-IsLow x p h =
    let y = 4_294_967_296 - x in
    subst (IsLow x) (sym (bit_and-bitwise x y))
      (digits-IsLow x 32 x y p (omega arith) (omega (arith, h)) (omega (arith, h)))

pub IsLow-bounds : (x b : ℕ) → 0 < x → IsLow x b → (0 < b) × (b ≤ x)
IsLow-bounds x b p (odd k e f) = (omega (arith, f), omega (arith, e, f))
IsLow-bounds x b p (even k c e f h) =
    let (lower, upper) = IsLow-bounds k c (omega (arith, p, e)) h in
    (omega (arith, lower, f), omega (arith, upper, e, f))

-- An index that counts x, other than x itself, counts the next index of update too.
pub next_counted : (i b x c : ℕ) → IsLow i b → IsLow x c → i < x + b → x ≤ i → i ≢ x → x + c ≤ i
next_counted i b x c (odd j e f) l lower upper ne = absurd (ne (omega (arith, f, lower, upper)))
next_counted i b x c (even j d e f l) (odd k e' f') lower upper ne = omega (arith, e, e', f', upper)
next_counted i b x c (even j d e f l) (even k c' e' f' l') lower upper ne =
    let ih =
      next_counted j d k c' l l' (omega (arith, e, e', f, lower)) (omega (arith, e, e', upper))
        λ s. ne (omega (arith, s, e, e')) in
    omega (arith, ih, e, e', f')

-- The other way round.
pub counts_before : (i b x c : ℕ) → IsLow i b → IsLow x c → i < x + c + b → x + c ≤ i → i < x + b
counts_before i b x c (odd j e f) (odd k e' f') lower upper =
    absurd (omega (arith, e, f, e', f', lower, upper))
counts_before i b x c (odd j e f) (even k c' e' f' l') lower upper =
    absurd (omega (arith, e, f, e', f', lower, upper))
counts_before i b x c (even j d e f l) (odd k e' f') lower upper =
    omega (arith, e, f, e', f', lower, upper)
counts_before i b x c (even j d e f l) (even k c' e' f' l') lower upper =
    let ih =
      counts_before j d k c' l l' (omega (arith, e, f, e', f', lower))
        (omega (arith, e, e', f', upper)) in
    omega (arith, ih, e, e', f)
