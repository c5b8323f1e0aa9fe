-- ===== src/FileSearch.antt =====
-- Memory_Mapped_File.c: the search for a keyword in a mapped file. What open, fstat and mmap return
-- is given to the run; a file that is mapped is the list of its bytes, and its size their number.
pub mod Matches
mod Tests
use leetcode.Base.{
  ℕ, zero, suc, ◌+◌, ◌-◌, Bool, true, false, ◌&&◌, Option, none, some, List, [], ◌∷◌, leb, ◌==◌,
  if◌then◌else◌, length, drop, CString,
}

-- memcmp(bytes, keyword, strlen(keyword)) == 0
unfoldable pub memcmp_is_0 : List ℕ → CString → Bool
memcmp_is_0 bytes [] = true
memcmp_is_0 [] (k ∷ keyword) = false
memcmp_is_0 (b ∷ bytes) (k ∷ keyword) = (b == k) && memcmp_is_0 bytes keyword

-- The loop of search_keyword from `i` on, with at most `rounds` passes: the offsets that it prints.
unfoldable pub search_loop : (rounds : ℕ) → List ℕ → CString → (i : ℕ) → List ℕ
search_loop zero file_data keyword i = []
search_loop (suc rounds) file_data keyword i =
    let rest = search_loop rounds file_data keyword (i + 1) in
    if leb (i + length keyword) (length file_data)
    then (if memcmp_is_0 (drop i file_data) keyword then i ∷ rest else rest)
    else []

-- What search_keyword prints: the offsets, and the total, or that there is no match.
pub record Found : Type 0 where
  pub offsets : List ℕ
  pub total : Option ℕ

unfoldable pub search_keyword : List ℕ → CString → Found
unfolding search_loop
search_keyword file_data keyword =
    let offsets = search_loop (length file_data + 1) file_data keyword 0 in
    let match_count = length offsets in
    record { offsets = offsets; total = if match_count == 0 then none else some match_count }

-- The results of the calls on a file; `mmap` has its bytes, or fails, as it does for an empty file.
pub record Calls : Type 0 where
  pub opens : Bool
  pub stats : Bool
  pub mmap : Option (List ℕ)

unfoldable pub map_file : Calls → Option (List ℕ)
map_file c = if c.opens then (if c.stats then c.mmap else none) else none

abbrev pub exit_success : ℕ
exit_success = 0

abbrev pub exit_failure : ℕ
exit_failure = 1

-- main, on the arguments behind the name of the program: what it returns, and what it found.
unfoldable pub searched : Option (List ℕ) → CString → ℕ × Option Found
unfolding search_keyword
searched none keyword = (exit_failure, none)
searched (some file_data) keyword = (exit_success, some (search_keyword file_data keyword))

unfoldable pub main : Calls → List CString → ℕ × Option Found
unfolding map_file searched
main c (filename ∷ keyword ∷ []) = searched (map_file c) keyword
main c _ = (exit_failure, none)
