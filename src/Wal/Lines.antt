-- ===== src/Wal/Lines.antt =====
-- Wal.c: which lines the tests of recover tell apart.
use leetcode.Base.{
  decimal, decimal_from, ℕ, zero, suc, ◌+◌, ◌/◌, ◌%◌, ◌≡◌, ◌≢◌, refl, true, false, [], ◌∷◌, ◌++◌,
  arith, All, All-append, Bool-cases, inl, inr, length, length-append, ◌≤◌, ◌<◌, ◌==◌, CString,
}
use leetcode.Wal.{
  starts_with, contains, text_transaction, text_begin, text_commit, text_set, transaction_line,
  set_line, is_begin, is_commit, snprintf,
}
use leetcode.Wal.Buffers.{Fits, IsLine}

contains-append : (xs ys part : CString) → contains ys part ≡ true → contains (xs ++ ys) part ≡ true
unfolding contains
contains-append [] ys part h = h
contains-append (x ∷ xs) ys part h = ground (arith, contains-append xs ys part h)

contains-none :
    (b : ℕ) (part : CString) (xs : CString) → All (λ c. c ≢ b) xs → contains xs (b ∷ part) ≡ false
unfolding contains starts_with
contains-none b part [] h = refl
contains-none b part (x ∷ xs) h = ground (arith, h.0, contains-none b part xs h.1)

module _ (P : ℕ → Type 0) (digits : (d : ℕ) → d < 10 → P (b'0' + d)) where
  decimal_from-All : (fuel n : ℕ) (rest : CString) → All P rest → All P (decimal_from fuel n rest)
  unfolding decimal_from
  decimal_from-All zero n rest h = h
  decimal_from-All (suc fuel) n rest h =
      let next : All P ((b'0' + n % 10) ∷ rest) = (digits (n % 10) (omega arith), h) in
      elim (Bool-cases (n / 10 == 0)) [
        | inl e ↦ rw (e, decimal_from) next
        | inr e ↦
            rw (e, decimal_from) (decimal_from-All fuel (n / 10) ((b'0' + n % 10) ∷ rest) next)
      ]

  decimal-All : (n : ℕ) → All P (decimal n)
  unfolding decimal
  decimal-All n = decimal_from-All 10 n [] tt

-- Digits are below the letters.
decimal-small : (n : ℕ) → All (λ c. c ≢ b'B') (decimal n)
decimal-small n = decimal-All (λ c. c ≢ b'B') (λ d lt. ground (arith, lt)) n

decimal_from_le :
    (fuel n : ℕ) (rest : CString) → length (decimal_from fuel n rest) ≤ fuel + length rest
unfolding decimal_from
decimal_from_le zero n rest = omega arith
decimal_from_le (suc fuel) n rest =
    ground (arith, decimal_from_le fuel (n / 10) ((b'0' + n % 10) ∷ rest))

decimal_le : (n : ℕ) → length (decimal n) ≤ 10
unfolding decimal
decimal_le n = omega (arith, decimal_from_le 10 n [])

-- The lines of BEGIN and COMMIT fit the buffer, and hold no newline.
transaction_line-Fits :
    (id : ℕ) (word : CString) → length word ≤ 100 → Fits (transaction_line id word)
unfolding transaction_line
transaction_line-Fits id word h =
    omega (arith, h, decimal_le id, length-append (decimal id) (32 ∷ word))

transaction_line-IsLine :
    (id : ℕ) (word : CString) → IsLine word → IsLine (transaction_line id word)
unfolding transaction_line
transaction_line-IsLine id word a =
    All-append (λ c. c ≢ 10) text_transaction (32 ∷ (decimal id ++ (32 ∷ word))) (omega arith)
      (
        omega arith,
        All-append (λ c. c ≢ 10) (decimal id) (32 ∷ word)
            (decimal-All (λ c. c ≢ 10) (λ d lt. ground arith) id) (omega arith, a),
      )

pub begin-Fits : (id : ℕ) → Fits (transaction_line id text_begin)
begin-Fits id = transaction_line-Fits id text_begin (omega arith)

pub commit-Fits : (id : ℕ) → Fits (transaction_line id text_commit)
commit-Fits id = transaction_line-Fits id text_commit (omega arith)

pub begin-IsLine : (id : ℕ) → IsLine (transaction_line id text_begin)
begin-IsLine id = transaction_line-IsLine id text_begin (omega arith)

pub commit-IsLine : (id : ℕ) → IsLine (transaction_line id text_commit)
commit-IsLine id = transaction_line-IsLine id text_commit (omega arith)

pub set_line-IsLine : (k v : CString) → IsLine k → IsLine v → IsLine (set_line k v)
unfolding set_line
set_line-IsLine k v a b =
    let rest = All-append (λ c. c ≢ 10) k (32 ∷ v) a (omega arith, b) in
    All-append (λ c. c ≢ 10) text_set (32 ∷ (k ++ (32 ∷ v))) (omega arith) (omega arith, rest)

-- A word stands at the end of its line.
line_contains :
    (id : ℕ) (word : CString)
    → contains (32 ∷ word) word ≡ true
    → contains (transaction_line id word) word ≡ true
unfolding transaction_line
line_contains id word h =
    contains-append text_transaction _ word
      (contains-append (32 ∷ []) _ word (contains-append (decimal id) (32 ∷ word) word h))

line_starts :
    (id : ℕ) (word : CString) → starts_with (transaction_line id word) text_transaction ≡ true
unfolding transaction_line starts_with
line_starts id word = refl

pub begin_is_begin : (id : ℕ) → is_begin (transaction_line id text_begin) ≡ true
unfolding is_begin
begin_is_begin id = cc (line_starts id text_begin, line_contains id text_begin found)
  where
    found : contains (32 ∷ text_begin) text_begin ≡ true
    found = unfold contains starts_with in refl

pub commit_is_no_begin : (id : ℕ) → is_begin (transaction_line id text_commit) ≡ false
unfolding is_begin transaction_line
commit_is_no_begin id =
    let no_b : All (λ c. c ≢ b'B') (transaction_line id text_commit) =
      All-append (λ c. c ≢ b'B') text_transaction (32 ∷ (decimal id ++ (32 ∷ text_commit)))
        (omega arith)
        (
          omega arith,
          All-append (λ c. c ≢ b'B') (decimal id) (32 ∷ text_commit) (decimal-small id)
              (omega arith),
        ) in
    let none : contains (transaction_line id text_commit) text_begin ≡ false =
      contains-none b'B' (b'E' ∷ b'G' ∷ b'I' ∷ b'N' ∷ []) (transaction_line id text_commit) no_b in
    cc (line_starts id text_commit, none)

pub commit_is_commit : (id : ℕ) → is_commit (transaction_line id text_commit) ≡ true
unfolding is_commit
commit_is_commit id = cc (line_starts id text_commit, line_contains id text_commit found)
  where
    found : contains (32 ∷ text_commit) text_commit ≡ true
    found = unfold contains starts_with in refl

-- The buffer of a SET line.
unfoldable pub set_buffer : (key value : CString) → CString
unfolding snprintf set_line
set_buffer key value = snprintf (set_line key value)

-- It is neither, and is recognised.
pub set_is_set :
    (k v : CString)
    → (is_begin (set_buffer k v) ≡ false)
      × (is_commit (set_buffer k v) ≡ false)
      × (starts_with (set_buffer k v) text_set ≡ true)
unfolding is_begin is_commit set_buffer starts_with
set_is_set k v = (refl, refl, refl)
