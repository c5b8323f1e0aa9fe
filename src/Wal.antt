-- ===== src/Wal.antt =====
-- Wal.c: a write-ahead log. A file is the list of its lines, since every write to it ends one. Calls
-- on files succeed, and a missing log is `none`. `durable` is what fsync has brought of the log to the
-- disk, which is what a loss of power leaves of it. The database is written with fsync only.
pub mod Buffers
pub mod Lines
pub mod Recovery
pub mod Commands
pub mod Durability
mod Tests
use leetcode.Base.{
  ℕ, zero, suc, ◌+◌, ◌/◌, ◌%◌, Bool, true, false, ◌&&◌, ◌||◌, Option, none, some, List, [], ◌∷◌,
  ◌++◌, ◌==◌, if◌then◌else◌, CString, decimal, take,
}

pub record Disk : Type 0 where
  pub wal : Option (List CString)
  pub durable : Option (List CString)
  pub db : List CString
  pub transaction_id : ℕ

-- strncmp(line, prefix, strlen(prefix)) == 0
unfoldable pub starts_with : (line prefix : CString) → Bool
starts_with line [] = true
starts_with [] (p ∷ ps) = false
starts_with (c ∷ cs) (p ∷ ps) = (c == p) && starts_with cs ps

-- strstr(line, part) != NULL
unfoldable pub contains : (line part : CString) → Bool
contains [] part = starts_with [] part
contains (c ∷ cs) part = starts_with (c ∷ cs) part || contains cs part

abbrev pub text_transaction : CString
text_transaction = b'T' ∷ b'R' ∷ b'A' ∷ b'N' ∷ b'S' ∷ b'A' ∷ b'C' ∷ b'T' ∷ b'I' ∷ b'O' ∷ b'N' ∷ []

abbrev pub text_begin : CString
text_begin = b'B' ∷ b'E' ∷ b'G' ∷ b'I' ∷ b'N' ∷ []

abbrev pub text_commit : CString
text_commit = b'C' ∷ b'O' ∷ b'M' ∷ b'M' ∷ b'I' ∷ b'T' ∷ []

abbrev pub text_set : CString
text_set = b'S' ∷ b'E' ∷ b'T' ∷ []

-- "TRANSACTION %d BEGIN", and the same with COMMIT.
unfoldable pub transaction_line : ℕ → CString → CString
transaction_line id word = text_transaction ++ (32 ∷ (decimal id ++ (32 ∷ word)))

-- "SET %s %s"
unfoldable pub set_line : (key value : CString) → CString
set_line key value = text_set ++ (32 ∷ (key ++ (32 ∷ value)))

-- snprintf into a buffer of MAX_LINE bytes.
unfoldable pub snprintf : CString → CString
snprintf text = take 255 text

-- A byte in front of the first of some lines.
unfoldable pub push_byte : ℕ → List CString → List CString
push_byte c [] = (c ∷ []) ∷ []
push_byte c (line ∷ lines) = (c ∷ line) ∷ lines

-- The lines of a text that a newline ends.
unfoldable pub split_lines : CString → List CString
unfolding push_byte
split_lines [] = [] ∷ []
split_lines (c ∷ text) =
    let rest = split_lines text in if c == 10 then [] ∷ rest else push_byte c rest

-- The write of a line, and of its newline.
unfoldable pub append_lines : Option (List CString) → CString → List CString
unfolding split_lines
append_lines none line = split_lines line
append_lines (some lines) line = lines ++ split_lines line

-- On the log.
unfoldable pub append_file : Disk → (line : CString) → (sync : Bool) → Disk
unfolding append_lines
append_file d line sync =
    let lines = append_lines d.wal line in
    record d { wal = some lines; durable = if sync then some lines else d.durable }

unfoldable pub write_transaction : Disk → (key value : CString) → (sync : Bool) → Disk
unfolding snprintf append_file
write_transaction d key value sync =
    let begun = append_file d (snprintf (transaction_line d.transaction_id text_begin)) sync in
    let set = append_file begun (snprintf (set_line key value)) sync in
    let done = append_file set (snprintf (transaction_line d.transaction_id text_commit)) sync in
    record done { transaction_id = d.transaction_id + 1 }

-- What is left of the files when the machine stops.
unfoldable pub lose_power : Disk → Disk
lose_power d = record d { wal = d.durable }

unfoldable pub is_begin : CString → Bool
is_begin line = starts_with line text_transaction && contains line text_begin

unfoldable pub is_commit : CString → Bool
is_commit line = starts_with line text_transaction && contains line text_commit

-- `in_tx` after a line.
unfoldable pub next_mode : Bool → CString → Bool
next_mode in_tx line = if is_begin line then true else if is_commit line then false else in_tx

-- The loop of recover: the new lines of the database file.
unfoldable pub replay : Bool → List CString → List CString
replay in_tx [] = []
replay in_tx (line ∷ lines) =
    let rest = replay (next_mode in_tx line) lines in
    if is_begin line
    then rest
    else if is_commit line
    then rest
    else if in_tx && starts_with line text_set
    then line ∷ rest
    else rest

-- What the calls of fgets bring of a line, without newlines, where `room` bytes of the buffer are left.
-- A line that fills the buffer has its newline in the next call.
unfoldable pub fgets : (room : ℕ) → CString → List CString
unfolding push_byte
fgets zero [] = [] ∷ [] ∷ []
fgets (suc room) [] = [] ∷ []
fgets zero (c ∷ line) = [] ∷ push_byte c (fgets 254 line)
fgets (suc room) (c ∷ line) = push_byte c (fgets room line)

unfoldable pub read_lines : List CString → List CString
unfolding fgets
read_lines [] = []
read_lines (line ∷ lines) = fgets 255 line ++ read_lines lines

unfoldable pub recover : Disk → Option Disk
unfolding read_lines
recover d = elim d.wal [
  | none ↦ none
  | some lines ↦ some (record d { db = d.db ++ replay false (read_lines lines) })
]
