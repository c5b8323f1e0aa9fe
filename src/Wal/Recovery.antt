-- ===== src/Wal/Recovery.antt =====
-- Wal.c: what recover brings to the database file.
use leetcode.Base.{
  All, All-append, ℕ, ◌+◌, ◌≡◌, refl, ap, sym, ◌∙◌, Bool, true, false, none, some, List, [], ◌∷◌,
  ◌++◌, CString,
}
use mathlib.Core.List.{append_assoc, append-nil}
use leetcode.Wal.{
  append_lines, read_lines, Disk, text_begin, text_commit, transaction_line, set_line, append_file,
  write_transaction, next_mode, replay, recover,
}
use leetcode.Wal.Buffers.{
  Fits, IsLine, snprintf-whole, snprintf-Fits, snprintf-IsLine, append_lines-none,
  append_lines-some, replay-read_lines,
}
use leetcode.Wal.Lines.{
  set_buffer, begin-Fits, commit-Fits, begin-IsLine, commit-IsLine, set_line-IsLine, begin_is_begin,
  commit_is_no_begin, commit_is_commit, set_is_set,
}

-- The key and the value of a transaction.
abbrev pub Write : Type 0
Write = CString × CString

unfoldable pub write_all : Disk → List Write → Disk
write_all d [] = d
write_all d ((k, v) ∷ ws) = write_all (write_transaction d k v true) ws

unfoldable pub set_lines : List Write → List CString
set_lines [] = []
set_lines ((k, v) ∷ ws) = set_buffer k v ∷ set_lines ws

unfoldable pub log_of : ℕ → List Write → List CString
log_of id [] = []
log_of id ((k, v) ∷ ws) =
    transaction_line id text_begin
    ∷ set_buffer k v
    ∷ transaction_line id text_commit
    ∷ log_of (id + 1) ws

pub replay-begin :
    (b : Bool) (id : ℕ) (rest : List CString)
    → replay b (transaction_line id text_begin ∷ rest) ≡ replay true rest
unfolding replay next_mode
replay-begin b id rest = rw (begin_is_begin id)

pub replay-commit :
    (b : Bool) (id : ℕ) (rest : List CString)
    → replay b (transaction_line id text_commit ∷ rest) ≡ replay false rest
unfolding replay next_mode
replay-commit b id rest = rw (commit_is_no_begin id, commit_is_commit id)

pub replay-set :
    (k v : CString) (rest : List CString)
    → replay true (set_buffer k v ∷ rest) ≡ set_buffer k v ∷ replay true rest
unfolding replay next_mode
replay-set k v rest =
    let (no_begin, no_commit, found) = set_is_set k v in rw (no_begin, no_commit, found)

pub replay-log : (id : ℕ) (ws : List Write) → replay false (log_of id ws) ≡ set_lines ws
unfolding log_of set_lines
replay-log id [] = unfold replay in refl
replay-log id ((k, v) ∷ ws) =
    replay-begin false id _
    ∙ replay-set k v _
    ∙ ap (λ r. set_buffer k v ∷ r) (replay-commit true id _ ∙ replay-log (id + 1) ws)

-- What a transaction adds to the log.
pub transaction_log :
    (d : Disk) (k v : CString) (sync : Bool) (lines : List CString)
    → IsLine k
    → IsLine v
    → append_lines d.wal (transaction_line d.transaction_id text_begin)
      ≡ lines ++ (transaction_line d.transaction_id text_begin ∷ [])
    → (write_transaction d k v sync).wal ≡ some (lines ++ log_of d.transaction_id ((k, v) ∷ []))
unfolding write_transaction append_file set_buffer log_of
transaction_log d k v sync lines a b e =
    let id = d.transaction_id in
    let begun = transaction_line id text_begin in
    let set = set_buffer k v in
    let done = transaction_line id text_commit in
    let set-IsLine = snprintf-IsLine (set_line k v) (set_line-IsLine k v a b) in
    let two =
      append_lines-some (lines ++ (begun ∷ [])) set set-IsLine
      ∙ append_assoc lines (begun ∷ []) (set ∷ []) in
    let three =
      append_lines-some (lines ++ (begun ∷ set ∷ [])) done (commit-IsLine id)
      ∙ append_assoc lines (begun ∷ set ∷ []) (done ∷ []) in
    rw (snprintf-whole begun (begin-Fits id), snprintf-whole done (commit-Fits id), e, two, three)
      refl

-- With sync the log is on the disk as it is.
pub transaction-durable :
    (d : Disk) (k v : CString)
    → (write_transaction d k v true).durable ≡ (write_transaction d k v true).wal
unfolding write_transaction append_file
transaction-durable d k v = refl

abbrev pub AreLines : List Write → Type 0
AreLines = All (λ (w : Write). IsLine w.0 × IsLine w.1)

write_all-log :
    (d : Disk) (lines : List CString) (ws : List Write)
    → AreLines ws
    → d.wal ≡ some lines
    → ((write_all d ws).wal ≡ some (lines ++ log_of d.transaction_id ws))
      × ((write_all d ws).db ≡ d.db)
unfolding write_all log_of write_transaction
write_all-log d lines [] a e = (e ∙ ap some (sym (append-nil lines)), refl)
write_all-log d lines ((k, v) ∷ ws) a e =
    let begun = transaction_line d.transaction_id text_begin in
    let first =
      ap (λ o. append_lines o begun) e
      ∙ append_lines-some lines begun (begin-IsLine d.transaction_id) in
    let next = write_transaction d k v true in
    let three = transaction_log d k v true lines a.0.0 a.0.1 first in
    let (log, same) =
      write_all-log next (lines ++ log_of d.transaction_id ((k, v) ∷ [])) ws a.1 three in
    (
      log
          ∙ ap some (
              append_assoc lines (log_of d.transaction_id ((k, v) ∷ []))
                (log_of (d.transaction_id + 1) ws)),
      same,
    )

abbrev pub empty_disk : Disk
empty_disk = record { wal = none; durable = none; db = []; transaction_id = 1 }

pub recover_lines :
    (d : Disk) (lines : List CString)
    → d.wal ≡ some lines
    → recover d ≡ some (record d { db = d.db ++ replay false (read_lines lines) })
unfolding recover
recover_lines d lines e = rw e

pub recover_log :
    (d : Disk) (lines : List CString)
    → All Fits lines
    → d.wal ≡ some lines
    → recover d ≡ some (record d { db = d.db ++ replay false lines })
recover_log d lines a e =
    recover_lines d lines e
    ∙ ap (λ r. some (record d { db = d.db ++ r })) (replay-read_lines false lines a)

pub log_of-Fits : (id : ℕ) (ws : List Write) → All Fits (log_of id ws)
unfolding log_of set_buffer
log_of-Fits id [] = tt
log_of-Fits id ((k, v) ∷ ws) =
    (begin-Fits id, (snprintf-Fits (set_line k v), (commit-Fits id, log_of-Fits (id + 1) ws)))

set_lines-Fits : (ws : List Write) → All Fits (set_lines ws)
unfolding set_lines set_buffer
set_lines-Fits [] = tt
set_lines-Fits ((k, v) ∷ ws) = (snprintf-Fits (set_line k v), set_lines-Fits ws)

-- The log after a first transaction.
pub first_log :
    (d : Disk) (k v : CString)
    → IsLine k
    → IsLine v
    → d.wal ≡ none
    → (write_transaction d k v true).wal ≡ some (log_of d.transaction_id ((k, v) ∷ []))
first_log d k v a b e =
    let begun = transaction_line d.transaction_id text_begin in
    transaction_log d k v true [] a b
      (ap (λ o. append_lines o begun) e ∙ append_lines-none begun (begin-IsLine d.transaction_id))

-- After any transactions on a disk with no files, at least one of them and each without newlines,
-- recover appends to the database the SET lines of all, in the order of the calls, and nothing else.
pub recover-write_all :
    (k v : CString) (ws : List Write)
    → AreLines ((k, v) ∷ ws)
    → let d = write_all empty_disk ((k, v) ∷ ws) in
      recover d ≡ some (record d { db = set_lines ((k, v) ∷ ws) })
unfolding write_all write_transaction
recover-write_all k v ws a =
    let d = write_all (write_transaction empty_disk k v true) ws in
    let (log, same) =
      write_all-log (write_transaction empty_disk k v true) (log_of 1 ((k, v) ∷ [])) ws a.1
        (first_log empty_disk k v a.0.0 a.0.1 refl) in
    let whole : log_of 1 ((k, v) ∷ []) ++ log_of 2 ws ≡ log_of 1 ((k, v) ∷ ws) =
      unfold log_of in refl in
    recover_log d (log_of 1 ((k, v) ∷ ws)) (log_of-Fits 1 ((k, v) ∷ ws)) (log ∙ ap some whole)
    ∙ ap (λ r. some (record d { db = r ++ replay false (log_of 1 ((k, v) ∷ ws)) })) same
    ∙ ap (λ r. some (record d { db = r })) (replay-log 1 ((k, v) ∷ ws))

-- The log of whole transactions is replayed line by line, whatever follows it.
replay-append :
    (id : ℕ) (ws : List Write) (rest : List CString)
    → replay false (log_of id ws ++ rest) ≡ set_lines ws ++ replay false rest
unfolding log_of set_lines
replay-append id [] rest = refl
replay-append id ((k, v) ∷ ws) rest =
    replay-begin false id _
    ∙ replay-set k v _
    ∙ ap (λ r. set_buffer k v ∷ r) (replay-commit true id _ ∙ replay-append (id + 1) ws rest)

replay-torn : (torn : List Write) → replay true (set_lines torn) ≡ set_lines torn
unfolding set_lines
replay-torn [] = unfold replay in refl
replay-torn ((k, v) ∷ ws) = replay-set k v _ ∙ ap (λ r. set_buffer k v ∷ r) (replay-torn ws)

-- A crash after the SET lines of a transaction, before its COMMIT: recover applies them all the
-- same, behind those of the transactions before it. The SET lines are as snprintf leaves them, cut to
-- the size of its buffer.
pub recover_uncommitted :
    (d : Disk) (id n : ℕ) (ws torn : List Write)
    → d.wal ≡ some (log_of id ws ++ transaction_line n text_begin ∷ set_lines torn)
    → recover d ≡ some (record d { db = d.db ++ (set_lines ws ++ set_lines torn) })
recover_uncommitted d id n ws torn e =
    let all : replay false (log_of id ws ++ transaction_line n text_begin ∷ set_lines torn)
        ≡ set_lines ws ++ set_lines torn =
      replay-append id ws _
      ∙ ap (λ r. set_lines ws ++ r) (replay-begin false n _ ∙ replay-torn torn) in
    let fits =
      All-append Fits (log_of id ws) (transaction_line n text_begin ∷ set_lines torn)
        (log_of-Fits id ws) (begin-Fits n, set_lines-Fits torn) in
    recover_log d _ fits e ∙ ap (λ r. some (record d { db = d.db ++ r })) all
