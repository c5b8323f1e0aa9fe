-- ===== src/Arrays/Tests.antt =====
-- 1.c, 217.c and 387.c on short inputs.
use leetcode.Base.{◌≡◌, refl, true, some, [], ◌∷◌}
use leetcode.Base.Int.{pos, ◌+ℤ◌}
use leetcode.Arrays.{find_partner, two_sum, contains_duplicate, first_uniq_char}

-- Of two pairs the one that starts last.
last_pair : two_sum (pos 1 ∷ pos 4 ∷ pos 2 ∷ pos 3 ∷ []) (pos 5) (7, 7) ≡ (2, 3)
unfolding two_sum find_partner ◌+ℤ◌
last_pair = refl

three_twice : contains_duplicate (λ xs. xs) (pos 1 ∷ pos 3 ∷ pos 3 ∷ []) ≡ true
unfolding contains_duplicate
three_twice = refl

b_once : first_uniq_char (b'a' ∷ b'b' ∷ b'a' ∷ []) ≡ some (pos 1)
unfolding first_uniq_char
b_once = refl
