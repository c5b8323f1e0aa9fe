-- ===== src/FileCopy/Tests.antt =====
-- low_level_sys_call.c: runs over small files.
use leetcode.Base.{
  ℕ, ◌≡◌, refl, ◌↔◌, CString, true, false, some, none, List, [], ◌∷◌, arith, if◌then◌else◌, get_or,
  ◌==◌,
}
use leetcode.FileCopy.{bytes, Calls, finish, after_loop, copy_loop, main}
use leetcode.FileCopy.Copies.{whole, join, succeeds, copy_of, exit_zero, main_copies}

abbrev src : CString
src = b'a' ∷ []

abbrev dest : CString
dest = b'b' ∷ []

-- The last write fails, and main returns 0.
abbrev quiet : Calls
quiet = record {
  src_opens = true;
  dest_opens = true;
  passes = (bytes (1 ∷ 2 ∷ []), some 2) ∷ (bytes [], none) ∷ [];
  seeks = true;
  overwrites = false;
}

quiet-runs : main quiet (src ∷ dest ∷ []) ≡ (0, some (1 ∷ 2 ∷ []))
unfolding main after_loop finish copy_loop
quiet-runs = refl

short_write :
    main (record quiet { passes = (bytes (1 ∷ 2 ∷ []), some 1) ∷ [] }) (src ∷ dest ∷ [])
    ≡ (1, some (1 ∷ []))
unfolding main after_loop finish copy_loop
short_write = refl

-- Without the second argument nothing is copied, and main calls exit with 0.
no_destination : main quiet (src ∷ []) ≡ (0, none)
unfolding main
no_destination = refl

exit_zero_example :
    (main quiet (src ∷ dest ∷ []) ≡ (0, some (1 ∷ 2 ∷ [])))
    ↔ ((succeeds quiet ≡ true) × (some (1 ∷ 2 ∷ []) ≡ some (copy_of quiet)))
exit_zero_example = exit_zero quiet src dest (some (1 ∷ 2 ∷ []))

abbrev two_chunks : List (List ℕ)
two_chunks = (1 ∷ 2 ∷ 3 ∷ []) ∷ (4 ∷ 5 ∷ 6 ∷ 7 ∷ 8 ∷ []) ∷ []

main_copies_example :
    (d : List ℕ) × (main
        (record {
          src_opens = true;
          dest_opens = true;
          passes = whole two_chunks;
          seeks = true;
          overwrites = true;
        })
        (src ∷ dest ∷ [])
      ≡ (0, some d))
    × ((k : ℕ) → get_or d k 0 ≡ (if k == 6 then b'X' else get_or (join two_chunks) k 0))
main_copies_example = main_copies two_chunks src dest (ground arith)
