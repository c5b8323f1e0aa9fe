-- ===== src/FileCopy.antt =====
-- low_level_sys_call.c: main copies a file and overwrites its byte 6. The results of the system
-- calls are what the run is given: whether the files open, what each pass of the loop reads and how
-- many bytes its write takes, and whether lseek and the last write succeed. write puts the first of
-- its bytes at the position of the file, which moves behind them, and a gap that a write behind the
-- end leaves is filled by zeros, as POSIX says of a regular file.
pub mod Copies
mod Tests
use leetcode.Base.{
  ℕ, zero, suc, ◌+◌, ◌≡◌, Bool, true, false, Option, none, some, List, [], ◌∷◌, ◌++◌, length, take,
  CString, ltb, ◌==◌, if◌then◌else◌,
}

abbrev pub buffer_size : ℕ
buffer_size = 4_096

-- What read returns: -1, or bytes, none of them at the end.
pub data Read : Type 0 where
  failed : Read
  bytes : List ℕ → Read

-- One pass of the loop: the read, and what write returns if it is called (none for -1).
abbrev pub Pass : Type 0
Pass = Read × Option ℕ

pub record Calls : Type 0 where
  pub src_opens : Bool
  pub dest_opens : Bool
  pub passes : List Pass
  pub seeks : Bool
  pub overwrites : Bool

-- The bytes of a file after a write of `new` at `at`.
unfoldable pub write_at : (file : List ℕ) (at : ℕ) (new : List ℕ) → List ℕ
write_at file zero [] = file
write_at [] zero (b ∷ new) = b ∷ write_at [] zero new
write_at (c ∷ file) zero (b ∷ new) = b ∷ write_at file zero new
write_at [] (suc at) new = 0 ∷ write_at [] at new
write_at (c ∷ file) (suc at) new = c ∷ write_at file at new

-- How the loop ends, and the bytes then in the destination.
pub data Copied : Type 0 where
  write_failed : List ℕ → Copied
  read_failed : List ℕ → Copied
  copied : List ℕ → Copied

-- The loop, on what the destination holds so far; its position is its end. The end of the list of
-- passes is a read at the end of the source.
unfoldable pub copy_loop : List ℕ → List Pass → Copied
copy_loop dest [] = copied dest
copy_loop dest ((failed, _) ∷ ps) = read_failed dest
copy_loop dest ((bytes [], _) ∷ ps) = copied dest
copy_loop dest ((bytes (b ∷ bs), none) ∷ ps) = write_failed dest
copy_loop dest ((bytes (b ∷ bs), some nwrite) ∷ ps) =
    let rest = copy_loop (dest ++ take nwrite (b ∷ bs)) ps in
    if length (b ∷ bs) == nwrite then rest else write_failed (dest ++ take nwrite (b ∷ bs))

-- The value main returns (-1 is 255 to the caller), and the destination, if it was opened.
abbrev pub Exit : Type 0
Exit = ℕ × Option (List ℕ)

-- From lseek on.
unfoldable pub finish : Calls → List ℕ → Exit
finish c dest =
    if c.seeks
    then (if c.overwrites then (0, some (write_at dest 6 (b'X' ∷ []))) else (0, some dest))
    else (255, some dest)

unfoldable pub after_loop : Calls → Copied → Exit
unfolding finish
after_loop c (write_failed dest) = (1, some dest)
after_loop c (read_failed dest) = (1, some dest)
after_loop c (copied dest) = finish c dest

-- The arguments are those behind the name of the program.
unfoldable pub main : Calls → List CString → Exit
unfolding copy_loop after_loop
main c (src ∷ dest ∷ []) =
    if c.src_opens
    then (if c.dest_opens then after_loop c (copy_loop [] c.passes) else (1, none))
    else (1, none)
main c _ = (0, none)
