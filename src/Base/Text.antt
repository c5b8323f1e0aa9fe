-- ===== src/Base/Text.antt =====
-- C strings: the list of the bytes before the terminating 0.
use Prim.Native.Nat.{ℕ, zero, suc, ◌+◌, ◌/◌, ◌%◌}
use mathlib.Core.Path.{◌≡◌, refl, ap}
use mathlib.Core.Bool.{Bool, true, false, ◌&&◌}
use mathlib.Core.Logic.{◌↔◌}
use mathlib.Core.List.{List, [], ◌∷◌}
use native.Mathlib.Omega.{arith}
use leetcode.Base.Tests.{◌==◌, if◌then◌else◌}

abbrev pub CString : Type 0
CString = List ℕ

-- `strcmp(a, b) == 0`
unfoldable pub str_eq : CString → CString → Bool
str_eq [] [] = true
str_eq (a ∷ s) (b ∷ t) = (a == b) && str_eq s t
str_eq _ _ = false

pub str_eq_refl : (s : CString) → str_eq s s ≡ true
unfolding str_eq
str_eq_refl [] = refl
str_eq_refl (a ∷ s) = ground (arith, str_eq_refl s)

pub eq_of_str_eq : (s t : CString) → str_eq s t ≡ true → s ≡ t
unfolding str_eq
eq_of_str_eq [] [] h = refl
eq_of_str_eq [] (b ∷ t) h = cc
eq_of_str_eq (a ∷ s) [] h = cc
eq_of_str_eq (a ∷ s) (b ∷ t) h = ground (arith, eq_of_str_eq s t)

pub str_eq_iff : (s t : CString) → (str_eq s t ≡ true) ↔ (s ≡ t)
str_eq_iff s t = (eq_of_str_eq s t, λ e. rw e (str_eq_refl t))

pub str_eq_comm : (s t : CString) → str_eq s t ≡ str_eq t s
unfolding str_eq
str_eq_comm [] [] = refl
str_eq_comm [] (b ∷ t) = refl
str_eq_comm (a ∷ s) [] = refl
str_eq_comm (a ∷ s) (b ∷ t) = ground (arith, str_eq_comm s t)

-- A key that equals two others makes those equal.
pub str_eq_trans : (s t u : CString) → str_eq s t ≡ true → str_eq s u ≡ str_eq t u
str_eq_trans s t u h = ap (λ x. str_eq x u) (eq_of_str_eq s t h)

-- The digits of "%d", for a number with at most `fuel` of them, in front of `rest`.
unfoldable pub decimal_from : (fuel n : ℕ) → (rest : CString) → CString
decimal_from zero n rest = rest
decimal_from (suc fuel) n rest =
    let digit = b'0' + n % 10 in
    let more = decimal_from fuel (n / 10) (digit ∷ rest) in
    if n / 10 == 0 then digit ∷ rest else more

-- An `int` has at most ten digits.
unfoldable pub decimal : ℕ → CString
unfolding decimal_from
decimal n = decimal_from 10 n []
