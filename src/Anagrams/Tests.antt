-- ===== src/Anagrams/Tests.antt =====
-- 49.c: two strings that are no anagrams and fall into one bucket.
use leetcode.Base.{◌*◌, ◌-◌, ◌%◌, arith, ◌≡◌, refl, [], ◌∷◌, CString}
use leetcode.Anagrams.{
  widened, hash, hash_from, order_at, inner_loop, outer_loop, sort_string, insert, insert_all,
  collect, group_anagrams,
}
use leetcode.Anagrams.Groups.{members, filled, group_anagrams-members}

abbrev tea : CString
tea = b't' ∷ b'e' ∷ b'a' ∷ []

abbrev eat : CString
eat = b'e' ∷ b'a' ∷ b't' ∷ []

sorted_tea : sort_string tea ≡ b'a' ∷ b'e' ∷ b't' ∷ []
unfolding sort_string outer_loop inner_loop order_at
sorted_tea = refl

one_bucket :
    group_anagrams ((b'p' ∷ []) ∷ (b'a' ∷ b'a' ∷ []) ∷ [])
    ≡ ((b'a' ∷ b'a' ∷ []) ∷ (b'p' ∷ []) ∷ []) ∷ []
unfolding group_anagrams insert_all insert collect hash hash_from sort_string outer_loop inner_loop
    order_at
one_bucket = refl

group_anagrams-members_example :
    group_anagrams (tea ∷ eat ∷ []) ≡ filled (λ i. members i (tea ∷ eat ∷ [])) 1007 0
group_anagrams-members_example = group_anagrams-members (tea ∷ eat ∷ []) (ground arith)

-- The first byte of a letter with an accent, which counts as -61.
below_zero : hash (195 ∷ []) ≡ (5381 * 33 - 61) % 1007
unfolding hash hash_from widened
below_zero = refl
