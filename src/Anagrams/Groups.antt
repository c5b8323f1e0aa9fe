-- ===== src/Anagrams/Groups.antt =====
-- 49.c: the groups that groupAnagrams returns are the buckets of its table.
use leetcode.Base.{
  ℕ, zero, suc, ◌+◌, ◌≡◌, refl, ap, sym, ◌∙◌, true, false, List, [], ◌∷◌, ◌++◌, ◌==◌, if◌then◌else◌,
  CString, arith, All, map, Bool-cases, inl, inr,
}
use mathlib.Core.List.{append-nil, append_assoc}
use leetcode.Anagrams.{
  hash, insert, Node, Table, sort_string, insert_all, collect, group_anagrams, table_size,
}
use leetcode.Anagrams.Sorting.{IsBytes}
use leetcode.Anagrams.Keys.{key_bucket, hash-key_bucket}

-- The strings of the bucket `i`, the last first.
unfoldable pub members : ℕ → List CString → List CString
members i [] = []
members i (s ∷ strs) = members i strs ++ (if key_bucket s == i then s ∷ [] else [])

abbrev pub originals : List Node → List CString
originals = map (λ (n : Node). n.1)

insert_all-members :
    (table : Table) (strs : List CString) (i : ℕ)
    → All IsBytes strs
    → originals (insert_all table strs i) ≡ members i strs ++ originals (table i)
unfolding insert_all insert members
insert_all-members table [] i a = refl
insert_all-members table (s ∷ strs) i a =
    let rest = insert_all-members (insert table (sort_string s) s) strs i a.1 in
    let placed = hash-key_bucket s a.0 in
    let h = hash (sort_string s) in
    let ms = members i strs in
    elim (Bool-cases (h == i)) [
      | inl e ↦
          let at : i ≡ h = ground arith in
          let e' : (i == h) ≡ true = ground arith in
          rest
          ∙ (rw (← placed, e, e')
              (rw (← at) (sym (append_assoc ms (s ∷ []) (originals (table i))))))
      | inr e ↦
          let e' : (i == h) ≡ false = ground arith in
          rest ∙ (rw (← placed, e, e') (ap (λ ys. ys ++ originals (table i)) (sym (append-nil ms))))
    ]

-- The lists that are not empty.
unfoldable pub filled : (ℕ → List CString) → (rounds i : ℕ) → List (List CString)
filled f zero i = []
filled f (suc rounds) i = elim (f i) [
  | [] ↦ filled f rounds (i + 1)
  | s ∷ ss ↦ (s ∷ ss) ∷ filled f rounds (i + 1)
]

collect-filled :
    (table : Table) (f : ℕ → List CString) (rounds i : ℕ)
    → ((k : ℕ) → originals (table k) ≡ f k)
    → collect table rounds i ≡ filled f rounds i
unfolding collect filled
collect-filled table f zero i h = refl
collect-filled table f (suc rounds) i h =
    ground (arith, h i, collect-filled table f rounds (i + 1) h)

-- Of strings of bytes groupAnagrams returns one group for each bucket that is hit, in the order of the buckets: the
-- strings of that bucket, the last first. The bucket of a string is that of its bytes in the order of
-- their values as `char`, by their sum with powers of 33, modulo 2 ^ 64 and 1007.
pub group_anagrams-members :
    (strs : List CString)
    → All IsBytes strs
    → group_anagrams strs ≡ filled (λ i. members i strs) 1007 0
unfolding group_anagrams
group_anagrams-members strs a =
    collect-filled (insert_all (λ i. []) strs) (λ i. members i strs) table_size 0
      (λ k. insert_all-members (λ i. []) strs k a ∙ append-nil (members k strs))
