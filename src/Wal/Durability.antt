-- ===== src/Wal/Durability.antt =====
-- Wal.c: what the commands leave in the files, run after run.
use leetcode.Base.{
  ◌≡◌, refl, ap, ◌∙◌, true, false, Option, none, some, List, [], ◌∷◌, ◌++◌, CString, str_eq, take,
}
use leetcode.Wal.{
  Disk, set_line, snprintf, append_file, write_transaction, lose_power, recover, replay, read_lines,
}
use leetcode.Wal.Buffers.{IsLine}
use leetcode.Wal.Lines.{set_buffer}
use leetcode.Wal.Recovery.{
  log_of, log_of-Fits, set_lines, recover_lines, recover_log, replay-log, first_log,
  transaction-durable,
}
use leetcode.Wal.Commands.{crash_after_wal, text_crash, text_recover, run_recover, recovered, main}

run_crash :
    (d : Disk) (k v : CString)
    → main d (text_crash ∷ k ∷ v ∷ []) ≡ record { files = write_transaction d k v true; status = 1 }
unfolding main crash_after_wal str_eq
run_crash d k v = refl

run_recovery :
    (d new : Disk)
    → recover d ≡ some new
    → main d (text_recover ∷ []) ≡ record { files = new; status = 0 }
unfolding main run_recover str_eq
run_recovery d new h = ap (recovered d) h

same_database : (d : Disk) (k v : CString) → (lose_power (write_transaction d k v true)).db ≡ d.db
unfolding lose_power write_transaction append_file
same_database d k v = refl

left_log :
    (d : Disk) (k v : CString)
    → (lose_power (write_transaction d k v true)).wal ≡ (write_transaction d k v true).wal
unfolding lose_power
left_log d k v = transaction-durable d k v

one_line : (k v : CString) → replay false (log_of 1 ((k, v) ∷ [])) ≡ take 255 (set_line k v) ∷ []
unfolding set_lines set_buffer snprintf
one_line k v = replay-log 1 ((k, v) ∷ [])

-- The command crash-after-wal, as a first transaction on a disk without a log and with a key and a
-- value that hold no newline, returns 1. If the machine loses its power then, so that of the log only
-- what fsync has brought to the disk is left, recover after it returns 0 and appends the line of the
-- transaction to the database, cut to the 255 bytes that snprintf has room for.
pub crash_then_recover :
    (d : Disk) (k v : CString)
    → d.wal ≡ none
    → d.transaction_id ≡ 1
    → IsLine k
    → IsLine v
    → let e = main d (text_crash ∷ k ∷ v ∷ []) in
      let left = lose_power e.files in
      (e.status ≡ 1)
      × (main left (text_recover ∷ []) ≡ record {
        files = record left { db = d.db ++ (take 255 (set_line k v) ∷ []) };
        status = 0;
      })
crash_then_recover d k v no_log start a b =
    let left = lose_power (write_transaction d k v true) in
    let lines = log_of 1 ((k, v) ∷ []) in
    let log : left.wal ≡ some lines =
      left_log d k v
      ∙ first_log d k v a b no_log
      ∙ ap (λ id. some (log_of id ((k, v) ∷ []))) start in
    let done : recover left ≡ some (record left { db = d.db ++ (take 255 (set_line k v) ∷ []) }) =
      recover_log left lines (log_of-Fits 1 ((k, v) ∷ [])) log
      ∙ ap (λ r. some (record left { db = left.db ++ r })) (one_line k v)
      ∙ ap (λ r. some (record left { db = r ++ (take 255 (set_line k v) ∷ []) }))
          (same_database d k v) in
    rw (run_crash d k v) (refl, run_recovery left _ done)

repeats :
    (d once : Disk) (wal : Option (List CString))
    → d.wal ≡ wal
    → recover d ≡ some once
    → (new : List CString) × (once.db ≡ d.db ++ new)
      × (recover once ≡ some (record once { db = once.db ++ new }))
repeats d once none e h =
    let stuck : recover d ≡ none = unfold recover in rw e in
    let absurd : ⊥ = cc (stuck, h) in elim absurd [ ]
repeats d once (some lines) e h =
    let same : once ≡ record d { db = d.db ++ replay false (read_lines lines) } =
      cc (recover_lines d lines e, h) in
    rw same (
      replay false (read_lines lines),
      refl,
      recover_lines (record d { db = d.db ++ replay false (read_lines lines) }) lines e,
    )

-- A second recover appends the same lines to the database once more, since the log stays as it is.
pub recover_repeats :
    (d once : Disk)
    → recover d ≡ some once
    → (new : List CString) × (once.db ≡ d.db ++ new)
      × (recover once ≡ some (record once { db = once.db ++ new }))
recover_repeats d once h = repeats d once d.wal refl h
