-- ===== src/Arrays/Unique.antt =====
-- 387.c: firstUniqChar.
use leetcode.Base.{
  ℕ, ◌+◌, ◌-◌, ◌≤◌, ◌≡◌, refl, ap, ◌∙◌, true, some, [], ◌∷◌, arith, All, leb, ◌==◌, if◌then◌else◌,
  CString,
}
use leetcode.Base.Int.{ℤ, pos, negsuc}
use leetcode.Base.Fallible.{◌>>=◌}
use leetcode.Arrays.{count_chars, find_once, first_uniq_char}

abbrev pub IsLetter : ℕ → Type 0
IsLetter c = (b'a' ≤ c) × (c ≤ b'z')

unfoldable pub how_often : ℕ → CString → ℕ
how_often c [] = 0
how_often c (d ∷ s) = (if c == d then 1 else 0) + how_often c s

-- The place of the first character of the rest, from i on, that the string has once.
unfoldable pub first_single : (s : CString) → (i : ℕ) → (rest : CString) → ℤ
first_single s i [] = negsuc 0
first_single s i (c ∷ rest) =
    let later = first_single s (i + 1) rest in if how_often c s == 1 then pos i else later

count_chars_lem :
    (freq : ℕ → ℕ) (s : CString)
    → All IsLetter s
    → (counted : ℕ → ℕ) × (count_chars freq s ≡ some counted)
      × ((c : ℕ) → IsLetter c → counted (c - b'a') ≡ freq (c - b'a') + how_often c s)
unfolding count_chars how_often
count_chars_lem freq [] a = (freq, refl, λ c l. omega arith)
count_chars_lem freq (d ∷ s) a =
    let next : ℕ → ℕ = λ k. if k == d - b'a' then freq k + 1 else freq k in
    let (counted, e, h) = count_chars_lem next s a.1 in
    let low : leb b'a' d ≡ true = ground (arith, a.0) in
    let high : leb d b'z' ≡ true = ground (arith, a.0) in
    (counted, rw (low, high) e, λ c l. ground (arith, h c l, a.0, l))

find_once_lem :
    (freq : ℕ → ℕ) (s : CString) (i : ℕ) (rest : CString)
    → ((c : ℕ) → IsLetter c → freq (c - b'a') ≡ how_often c s)
    → All IsLetter rest
    → find_once freq i rest ≡ first_single s i rest
unfolding find_once first_single
find_once_lem freq s i [] h a = refl
find_once_lem freq s i (c ∷ rest) h a = rw (h c a.0, find_once_lem freq s (i + 1) rest h a.1) refl

-- On lower-case letters firstUniqChar stays inside of freq, and returns the place of the first
-- character that the string has once, or -1.
pub first_uniq_char_lem :
    (s : CString) → All IsLetter s → first_uniq_char s ≡ some (first_single s 0 s)
unfolding first_uniq_char
first_uniq_char_lem s a =
    let (freq, e, h) = count_chars_lem (λ k. 0) s a in
    ap (λ o. o >>= λ f. some (find_once f 0 s)) e
    ∙ ap some (find_once_lem freq s 0 s (λ c l. omega (arith, h c l)) a)
