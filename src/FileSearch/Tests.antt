-- ===== src/FileSearch/Tests.antt =====
-- Memory_Mapped_File.c: overlapping matches, and a file that cannot be mapped.
use leetcode.Base.{
  ℕ, ◌≡◌, ◌↔◌, refl, true, none, some, List, [], ◌∷◌, length, if◌then◌else◌, ◌==◌, CString,
}
use leetcode.FileSearch.{
  search_keyword, search_loop, memcmp_is_0, map_file, searched, main, exit_failure,
}
use leetcode.FileSearch.Matches.{has, Occurs, IsRising, search_keyword_lem}

abbrev file : List ℕ
file = b'a' ∷ b'a' ∷ b'a' ∷ b'b' ∷ []

abbrev word : CString
word = b'a' ∷ b'a' ∷ []

overlapping : search_keyword file word ≡ record { offsets = 0 ∷ 1 ∷ []; total = some 2 }
unfolding search_keyword search_loop memcmp_is_0
overlapping = refl

unmapped :
    main (record { opens = true; stats = true; mmap = none }) ((b'f' ∷ []) ∷ word ∷ [])
    ≡ (exit_failure, none)
unfolding main map_file searched
unmapped = refl

search_keyword_lem_example :
    let found = search_keyword file word in
    ((i : ℕ) → (has i found.offsets ≡ true) ↔ Occurs file word i)
    × IsRising found.offsets
    × (found.total ≡ (if length found.offsets == 0 then none else some (length found.offsets)))
search_keyword_lem_example = search_keyword_lem file word
