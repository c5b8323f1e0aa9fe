-- ===== src/Mvcc/Tests.antt =====
-- Runs of transaction_mvcc.c, and its theorems at concrete states.
use leetcode.Base.{ℕ, ◌≡◌, refl, true, false, some, none, [], ◌∷◌, arith, str_eq, All}
use leetcode.Mvcc.{
  State, read, init, set_tx, tentative, find_versions, add_version, mvcc_write, mvcc_read, begin_tx,
  commit_tx, abort_tx, acquire_lock, find_conflict, conflict_in, conflicts,
}
use leetcode.Mvcc.Db.{versions_of}
use leetcode.Mvcc.Visibility.{read-commit, read-begin-commit, newest}
use leetcode.Mvcc.Lifecycle.{write_all, abort-write_all, late_commit_hidden, abort_drops_committed}
use leetcode.Mvcc.Exclusion.{AllCompatible, Reach, here, next, begin, lock, locks_exclude}
use leetcode.Mvcc.Run.{key_x, value_100, value_200, main}

main_result : main ≡ some (false, none)
unfolding main
main_result = refl

abbrev started : State → ℕ → ℕ → State
started s i ts = set_tx s i (record { id = i; active = true; start_ts = ts; locks = [] })

-- Transactions 1 and 2 have begun.
abbrev begun : State
begun = record (started (started init 1 1) 2 2) { global_ts = 3 }

abbrev written : State
written = record begun { db = record { key = key_x; versions = tentative 1 value_100 ∷ [] } ∷ [] }

abbrev written_twice : State
written_twice = record begun {
  db = record { key = key_x; versions = tentative 2 value_200 ∷ tentative 1 value_100 ∷ [] } ∷ [];
}

write_x : mvcc_write begun 1 key_x value_100 ≡ some written
unfolding mvcc_write find_versions add_version
write_x = refl

write_x_again : mvcc_write written 2 key_x value_200 ≡ some written_twice
unfolding mvcc_write find_versions add_version str_eq
write_x_again = refl

read-commit_example : mvcc_read (commit_tx written 1) 2 key_x ≡ mvcc_read written 2 key_x
unfolding versions_of
read-commit_example = read-commit written 1 2 (λ k. ground arith) (omega arith) (omega arith) key_x

-- Transaction 3 begins after the commit of the first two.
abbrev committed : State
committed = record (started (commit_tx written 1) 3 4) { global_ts = 5 }

begin_3 : begin_tx (commit_tx written 1) 3 ≡ some committed
unfolding begin_tx commit_tx
begin_3 = refl

read-begin-commit_example : mvcc_read committed 3 key_x ≡ some value_100
unfolding versions_of newest str_eq
read-begin-commit_example = read-begin-commit written 1 3 begin_3 key_x (omega arith)

written_row : write_all begun 1 ((key_x, value_100) ∷ []) ≡ some written
unfolding write_all mvcc_write find_versions add_version
written_row = refl

abort-write_all_example : versions_of key_x (abort_tx written 1).db ≡ []
unfolding versions_of
abort-write_all_example =
    abort-write_all begun written 1 ((key_x, value_100) ∷ []) written_row (λ l. tt) key_x

abbrev committed_both : State
committed_both = record (started (commit_tx (commit_tx written_twice 2) 1) 3 5) { global_ts = 6 }

begin_after_both : begin_tx (commit_tx (commit_tx written_twice 2) 1) 3 ≡ some committed_both
unfolding begin_tx commit_tx
begin_after_both = refl

late_commit_hidden_example : mvcc_read committed_both 3 key_x ≡ some value_200
late_commit_hidden_example =
    late_commit_hidden begun written written_twice committed_both 1 2 3 key_x value_100 value_200
      write_x write_x_again (omega arith) begin_after_both

abbrev reused : State
reused = record (started (commit_tx written 1) 1 4) { global_ts = 5 }

begin_reused : begin_tx (commit_tx written 1) 1 ≡ some reused
unfolding begin_tx commit_tx
begin_reused = refl

abort_drops_committed_example :
    (mvcc_read reused 1 key_x ≡ some value_100) × (versions_of key_x (abort_tx reused 1).db ≡ [])
unfolding versions_of
abort_drops_committed_example =
    abort_drops_committed begun written reused 1 key_x value_100 write_x begin_reused refl

-- Both transactions read x.
abbrev sharing : State
sharing = (acquire_lock (acquire_lock begun 1 key_x read).1 2 key_x read).1

sharing_reached : Reach init sharing
unfolding begin_tx acquire_lock find_conflict conflict_in
sharing_reached =
    next (next (next (next here (begin 1 refl)) (begin 2 refl)) (lock 1 key_x read refl))
      (lock 2 key_x read refl)

locks_exclude_example :
    AllCompatible (sharing.transactions 1).locks (sharing.transactions 2).locks
    × All (λ l. l.tx_id ≡ 1) (sharing.transactions 1).locks
unfolding acquire_lock find_conflict conflict_in conflicts str_eq
locks_exclude_example = locks_exclude sharing_reached 1 2 refl refl (omega arith)
