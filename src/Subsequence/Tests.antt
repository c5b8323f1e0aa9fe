-- ===== src/Subsequence/Tests.antt =====
-- 1143.c: two short strings.
use leetcode.Base.{◌≡◌, refl, ◌≤◌, [], ◌∷◌, CString, length}
use leetcode.Subsequence.{longest_common_subsequence}
use leetcode.Subsequence.Optimal.{Subsequence}
use leetcode.Subsequence.Table.{longest_common_subsequence_lem}

abbrev word : CString
word = b'a' ∷ b'b' ∷ b'c' ∷ b'd' ∷ []

abbrev other : CString
other = b'b' ∷ b'x' ∷ b'd' ∷ []

two_in_common : longest_common_subsequence (λ _ _. 7) word other ≡ 2
unfolding longest_common_subsequence
two_in_common = refl

longest_common_subsequence_lem_example :
    ((w : CString) × Subsequence w word
      × Subsequence w other
      × (length w ≡ longest_common_subsequence (λ _ _. 7) word other))
    × ((w : CString)
        → Subsequence w word
        → Subsequence w other
        → length w ≤ longest_common_subsequence (λ _ _. 7) word other)
longest_common_subsequence_lem_example = longest_common_subsequence_lem (λ _ _. 7) word other
