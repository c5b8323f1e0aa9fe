-- ===== src/Parentheses/Tests.antt =====
-- 20.c: a few strings.
use leetcode.Base.{◌≡◌, ◌↔◌, refl, true, false, [], ◌∷◌, CString, inl, inr}
use leetcode.Parentheses.{is_valid, is_valid_from}
use leetcode.Parentheses.Balance.{Balanced, is_valid_iff}

abbrev nested : CString
nested = b'{' ∷ b'(' ∷ b')' ∷ b'}' ∷ []

crossed : is_valid (b'(' ∷ b'[' ∷ b')' ∷ b']' ∷ []) ≡ false
unfolding is_valid is_valid_from
crossed = refl

-- Any other byte takes a bracket from the stack.
letter : is_valid (b'(' ∷ b'a' ∷ []) ≡ true
unfolding is_valid is_valid_from
letter = refl

is_valid_iff_example : (is_valid nested ≡ true) ↔ Balanced nested
is_valid_iff_example =
    is_valid_iff nested
      (inr (inr (inl refl)), (inl refl, (inr (inl refl), (inr (inr (inr (inl refl))), tt))))
