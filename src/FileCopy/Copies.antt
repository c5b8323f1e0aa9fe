-- ===== src/FileCopy/Copies.antt =====
-- low_level_sys_call.c: what the destination holds when main returns.
use leetcode.Base.{
  ℕ, zero, suc, ◌≡◌, ◌≢◌, ◌↔◌, refl, ap, ◌∙◌, inl, inr, Bool, Bool-cases, ◌&&◌, CString, true,
  false, Option, none, some, List, [], ◌∷◌, ◌++◌, arith, length, take, ◌==◌, if◌then◌else◌, All,
  get_or,
}
use mathlib.Core.List.{append-nil, append_assoc}
use leetcode.FileCopy.{
  bytes, failed, Pass, Calls, write_at, Copied, write_failed, read_failed, copied, copy_loop,
  finish, after_loop, main,
}

-- All the bytes that the passes read, up to the first read that finds the end or fails.
unfoldable pub source : List Pass → List ℕ
source [] = []
source ((failed, _) ∷ ps) = []
source ((bytes [], _) ∷ ps) = []
source ((bytes (b ∷ bs), _) ∷ ps) = (b ∷ bs) ++ source ps

take-all : (xs : List ℕ) → take (length xs) xs ≡ xs
take-all [] = refl
take-all (x ∷ xs) = ground (arith, take-all xs)

-- Every read succeeds up to the end of the source, and every write takes all that was read.
unfoldable pub all_written : List Pass → Bool
all_written [] = true
all_written ((failed, _) ∷ ps) = false
all_written ((bytes [], _) ∷ ps) = true
all_written ((bytes (b ∷ bs), none) ∷ ps) = false
all_written ((bytes (b ∷ bs), some nwrite) ∷ ps) = (length (b ∷ bs) == nwrite) && all_written ps

copy_loop-all_written :
    (dest : List ℕ) (ps : List Pass)
    → all_written ps ≡ true
    → copy_loop dest ps ≡ copied (dest ++ source ps)
unfolding copy_loop source all_written
copy_loop-all_written dest [] h = ground (arith, append-nil dest)
copy_loop-all_written dest ((failed, _) ∷ ps) h = cc
copy_loop-all_written dest ((bytes [], _) ∷ ps) h = ground (arith, append-nil dest)
copy_loop-all_written dest ((bytes (b ∷ bs), none) ∷ ps) h = cc
copy_loop-all_written dest ((bytes (b ∷ bs), some nwrite) ∷ ps) h = ground (
  arith,
  copy_loop-all_written (dest ++ take nwrite (b ∷ bs)) ps,
  take-all (b ∷ bs),
  append_assoc dest (b ∷ bs) (source ps),
)

-- How the loop ends otherwise.
data Stopped : Copied → Type 0 where
  at_write : (dest : List ℕ) → Stopped (write_failed dest)
  at_read : (dest : List ℕ) → Stopped (read_failed dest)

copy_loop-Stopped :
    (dest : List ℕ) (ps : List Pass) → all_written ps ≡ false → Stopped (copy_loop dest ps)
unfolding copy_loop all_written
copy_loop-Stopped dest [] h = cc
copy_loop-Stopped dest ((failed, _) ∷ ps) h = at_read dest
copy_loop-Stopped dest ((bytes [], _) ∷ ps) h = cc
copy_loop-Stopped dest ((bytes (b ∷ bs), none) ∷ ps) h = at_write dest
copy_loop-Stopped dest ((bytes (b ∷ bs), some nwrite) ∷ ps) h =
    elim (Bool-cases (length (b ∷ bs) == nwrite)) [
      | inl e ↦
          rw (e, copy_loop)
            (copy_loop-Stopped (dest ++ take nwrite (b ∷ bs)) ps (ground (arith, e, h)))
      | inr e ↦ rw (e, copy_loop) (at_write (dest ++ take nwrite (b ∷ bs)))
    ]

-- The destination when the whole source was copied.
abbrev pub copy_of : Calls → List ℕ
copy_of c = if c.overwrites then write_at (source c.passes) 6 (b'X' ∷ []) else source c.passes

abbrev pub succeeds : Calls → Bool
succeeds c = c.src_opens && c.dest_opens && all_written c.passes && c.seeks

after_loop-Stopped :
    (c : Calls) (end : Copied) (result : Option (List ℕ))
    → Stopped end
    → after_loop c end ≢ (0, result)
unfolding after_loop
after_loop-Stopped c _ result (at_write dest) e = ground (arith, e)
after_loop-Stopped c _ result (at_read dest) e = ground (arith, e)

finish-cases :
    (c : Calls) (result : Option (List ℕ))
    → (finish c (source c.passes) ≡ (0, result)) ↔ ((c.seeks ≡ true) × (result ≡ some (copy_of c)))
unfolding finish
finish-cases c result =
    (λ e. (ground (arith, e), ground (arith, e)), λ (s, e). ground (arith, s, e))

-- Given two arguments, main returns 0 exactly if both files open, every read succeeds, every write of
-- the loop takes all that was read, and lseek succeeds. The destination then holds every byte that
-- was read, with byte 6 overwritten by 'X' if the last write succeeded. So a failure of that write
-- alone is not seen in the value returned.
pub exit_zero :
    (c : Calls) (src dest : CString) (result : Option (List ℕ))
    → (main c (src ∷ dest ∷ []) ≡ (0, result)) ↔ ((succeeds c ≡ true) × (result ≡ some (copy_of c)))
unfolding main
exit_zero c src dest result = elim (Bool-cases (all_written c.passes)) [
  | inl w ↦
      (let loop = copy_loop-all_written [] c.passes w in
        let (to, from) = finish-cases c result in
        let end : after_loop c (copy_loop [] c.passes) ≡ finish c (source c.passes) =
          ap (after_loop c) loop ∙ unfold after_loop in refl in
        (
          λ e. (ground (arith, e, end, w, to), ground (arith, e, end, w, to)),
          λ (s, e). ground (arith, s, e, end, w, from),
        ))
  | inr w ↦
      (let stopped =
          after_loop-Stopped c (copy_loop [] c.passes) result (copy_loop-Stopped [] c.passes w) in
        (λ e. absurd (ground (arith, e, stopped)), λ (s, e). absurd (ground (arith, s, w))))
]

-- The passes of a run in which no call fails and each write takes all its bytes.
unfoldable pub whole : List (List ℕ) → List Pass
whole [] = []
whole (chunk ∷ chunks) = (bytes chunk, some (length chunk)) ∷ whole chunks

unfoldable pub join : List (List ℕ) → List ℕ
join [] = []
join (chunk ∷ chunks) = chunk ++ join chunks

copy_loop-whole :
    (dest : List ℕ) (chunks : List (List ℕ))
    → All (λ c. c ≢ []) chunks
    → copy_loop dest (whole chunks) ≡ copied (dest ++ join chunks)
unfolding copy_loop whole join
copy_loop-whole dest [] h = ground (arith, append-nil dest)
copy_loop-whole dest ([] ∷ chunks) h = ground (arith, h.0)
copy_loop-whole dest ((b ∷ bs) ∷ chunks) h = ground (
  arith,
  copy_loop-whole (dest ++ (b ∷ bs)) chunks h.1,
  take-all (b ∷ bs),
  append_assoc dest (b ∷ bs) (join chunks),
)

get_or-write_at :
    (file : List ℕ) (at b k : ℕ)
    → get_or (write_at file at (b ∷ [])) k 0 ≡ (if k == at then b else get_or file k 0)
unfolding write_at
get_or-write_at [] zero b zero = ground arith
get_or-write_at [] zero b (suc k) = ground arith
get_or-write_at (c ∷ file) zero b zero = ground arith
get_or-write_at (c ∷ file) zero b (suc k) = ground arith
get_or-write_at [] (suc at) b zero = ground arith
get_or-write_at [] (suc at) b (suc k) = ground (arith, get_or-write_at [] at b k)
get_or-write_at (c ∷ file) (suc at) b zero = ground arith
get_or-write_at (c ∷ file) (suc at) b (suc k) = ground (arith, get_or-write_at file at b k)

-- When there are two arguments, all calls succeed and the reads bring the source in non-empty chunks, main returns 0, and the
-- destination has the bytes of the source except for an 'X' at position 6. Positions past the end
-- count as 0, since a shorter file is filled up with zeros.
pub main_copies :
    (chunks : List (List ℕ)) (src dest : CString)
    → All (λ c. c ≢ []) chunks
    → (d : List ℕ) × (main
          (record {
            src_opens = true;
            dest_opens = true;
            passes = whole chunks;
            seeks = true;
            overwrites = true;
          })
          (src ∷ dest ∷ [])
        ≡ (0, some d))
      × ((k : ℕ) → get_or d k 0 ≡ (if k == 6 then b'X' else get_or (join chunks) k 0))
unfolding main after_loop finish
main_copies chunks src dest h = (
  write_at (join chunks) 6 (b'X' ∷ []),
  rw (copy_loop-whole [] chunks h),
  λ k. get_or-write_at (join chunks) 6 b'X' k,
)
