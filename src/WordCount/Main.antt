-- ===== src/WordCount/Main.antt =====
-- wordcount.c: main, given the results of its calls.
use mathlib.Core.List.{Perm}
use leetcode.Base.{
  ℕ, ◌≤◌, ◌≡◌, refl, ap, ◌∙◌, Bool, true, false, Bool-cases, inl, inr, not, ◌&&◌, Option, none,
  some, List, [], ◌∷◌, ◌++◌, arith, length, drop, if◌then◌else◌, CString,
}
use mathlib.Core.List.{append-nil}
use leetcode.WordCount.{word_at, total_words}
use leetcode.WordCount.Scan.{word_starts}
use leetcode.WordCount.Total.{total_words_lem}

-- `stat` has the size of the file, `malloc` the bytes that stand in the memory it gives, and `read`
-- the bytes that it puts there.
pub record Calls : Type 0 where
  pub opens : Bool
  pub stat : Option ℕ
  pub malloc : (filesize : ℕ) → Option (List ℕ)
  pub read : (filesize : ℕ) → Option (List ℕ)

-- What main returns and prints, and whether it leaves the file open.
pub record Outcome : Type 0 where
  pub exit_code : ℕ
  pub total : Option ℕ
  pub fd_open : Bool

abbrev exit_failure : ℕ
exit_failure = 1

abbrev pub failed : (fd_open : Bool) → Outcome
failed fd_open = record { exit_code = exit_failure; total = none; fd_open = fd_open }

-- From the call of read on. The result of read is only tested for an error.
unfoldable pub with_buffer :
    (order : List ℕ) → (buffer : List ℕ) → (read : Option (List ℕ)) → Outcome
with_buffer order buffer none = failed false
with_buffer order buffer (some bytes) = record {
  exit_code = 0;
  total = some (total_words (bytes ++ drop (length bytes) buffer) order);
  fd_open = false;
}

-- From the call of malloc on.
unfoldable pub allocated : (order : List ℕ) → (malloc read : Option (List ℕ)) → Outcome
unfolding with_buffer
allocated order none read = failed true
allocated order (some buffer) read = with_buffer order buffer read

unfoldable pub sized : Calls → (order : List ℕ) → (stat : Option ℕ) → Outcome
unfolding allocated
sized c order none = failed false
sized c order (some filesize) = allocated order (c.malloc filesize) (c.read filesize)

-- The arguments are those behind the name of the program, and `order` that in which the threads add
-- to word_count.
unfoldable pub main : Calls → List CString → (order : List ℕ) → Outcome
unfolding sized
main c [] order = failed false
main c (filename ∷ args) order = if c.opens then sized c order c.stat else failed false

drop_all : (xs ys : List ℕ) → length xs ≡ length ys → drop (length xs) ys ≡ []
drop_all [] [] e = refl
drop_all [] (y ∷ ys) e = absurd (omega (arith, e))
drop_all (x ∷ xs) [] e = absurd (omega (arith, e))
drop_all (x ∷ xs) (y ∷ ys) e = drop_all xs ys (omega (arith, e))

-- The calls on a file with these bytes succeed, and read fills the buffer.
abbrev pub IsRead : Calls → List ℕ → Type 0
IsRead c bytes =
    (c.opens ≡ true)
    × (c.stat ≡ some (length bytes))
    × ((buffer : List ℕ) × (c.malloc (length bytes) ≡ some buffer) × (length buffer ≡ length bytes))
    × (c.read (length bytes) ≡ some bytes)

-- On a file of at least four bytes whose calls succeed, and that one call of read reads whole, main
-- closes the file, prints the number of the words, whatever stood in the buffer and in whatever
-- order the threads finish, and returns 0.
pub main_counts :
    (c : Calls) (filename : CString) (args : List CString) (bytes order : List ℕ)
    → IsRead c bytes
    → 4 ≤ length bytes
    → Perm order (0 ∷ 1 ∷ 2 ∷ 3 ∷ [])
    → main c (filename ∷ args) order ≡ record {
      exit_code = 0;
      total = some (word_starts (word_at bytes) (length bytes));
      fd_open = false;
    }
unfolding main sized allocated with_buffer
main_counts c filename args bytes order (o, s, (buffer, m, n), r) big p =
    let whole : bytes ++ drop (length bytes) buffer ≡ bytes =
      ap (λ xs. bytes ++ xs) (drop_all bytes buffer (omega (arith, n))) ∙ append-nil bytes in
    rw (o, s, m, r)
      (ap (λ n. record { exit_code = 0; total = some n; fd_open = false })
        (ap (λ xs. total_words xs order) whole ∙ total_words_lem bytes order big p))

abbrev pub is_some : {A : Type 0} → Option A → Bool
is_some none = false
is_some (some a) = true

-- The calls up to malloc, and up to read.
abbrev pub fails_alloc : Calls → Option ℕ → Bool
fails_alloc c none = false
fails_alloc c (some filesize) = not (is_some (c.malloc filesize))

abbrev pub loads : Calls → Option ℕ → Bool
loads c none = false
loads c (some filesize) = is_some (c.malloc filesize) && is_some (c.read filesize)

allocated_exits :
    (order : List ℕ) (m r : Option (List ℕ))
    → let o = allocated order m r in
      (o.exit_code ≡ (if is_some m && is_some r then 0 else exit_failure))
      × (is_some o.total ≡ (is_some m && is_some r))
      × (o.fd_open ≡ not (is_some m))
unfolding allocated with_buffer
allocated_exits order none r = (refl, refl, refl)
allocated_exits order (some buffer) none = (refl, refl, refl)
allocated_exits order (some buffer) (some bytes) = (refl, refl, refl)

sized_exits :
    (c : Calls) (order : List ℕ) (stat : Option ℕ)
    → let o = sized c order stat in
      (o.exit_code ≡ (if loads c stat then 0 else exit_failure))
      × (is_some o.total ≡ loads c stat)
      × (o.fd_open ≡ fails_alloc c stat)
unfolding sized
sized_exits c order none = (refl, refl, refl)
sized_exits c order (some filesize) = allocated_exits order (c.malloc filesize) (c.read filesize)

-- main, given the name of a file, returns 0 and prints a total exactly if open, stat, malloc and
-- read succeed, and it leaves the file open exactly if malloc is the call that fails.
pub main_exits :
    (c : Calls) (filename : CString) (args : List CString) (order : List ℕ)
    → let o = main c (filename ∷ args) order in
      (o.exit_code ≡ (if c.opens && loads c c.stat then 0 else exit_failure))
      × (is_some o.total ≡ (c.opens && loads c c.stat))
      × (o.fd_open ≡ (c.opens && fails_alloc c c.stat))
unfolding main
main_exits c filename args order = elim (Bool-cases c.opens) [
  | inl e ↦ rw e (sized_exits c order c.stat)
  | inr e ↦ rw e (refl, refl, refl)
]
