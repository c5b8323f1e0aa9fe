-- ===== src/Mvcc/Run.antt =====
-- transaction_mvcc.c: main, with what it prints as its result.
use leetcode.Base.{Bool, Option, some, [], ◌∷◌, CString, str_eq, if◌then◌else◌}
use leetcode.Base.Fallible.{◌>>=◌}
use leetcode.Mvcc.{
  State, write, init, max_tx, begin_tx, acquire_lock, mvcc_write, mvcc_read, commit_tx, abort_tx,
  find_versions, add_version, find_conflict, conflict_in, conflicts, latest, is_visible, stamp,
  map_versions, release_locks, deactivate,
}
use leetcode.Deadlock.{detect_deadlock, detect_cycle_util, scan, child, enter, leave}

abbrev pub key_x : CString
key_x = b'x' ∷ []

abbrev pub key_y : CString
key_y = b'y' ∷ []

abbrev pub value_100 : CString
value_100 = b'1' ∷ b'0' ∷ b'0' ∷ []

abbrev pub value_200 : CString
value_200 = b'2' ∷ b'0' ∷ b'0' ∷ []

-- The state before detect_deadlock, and the answers to the two last requests for locks.
unfoldable pub contend : Option (Bool × Bool × State)
unfolding begin_tx mvcc_write find_versions add_version acquire_lock find_conflict conflict_in
    conflicts str_eq
contend = do
  s ← begin_tx init 1
  s ← begin_tx s 2
  let s = (acquire_lock s 1 key_x write).1
  let s = (acquire_lock s 2 key_y write).1
  s ← mvcc_write s 1 key_x value_100
  s ← mvcc_write s 2 key_y value_200
  let (granted1, s) = acquire_lock s 1 key_y write
  let (granted2, s) = acquire_lock s 2 key_x write
  some (granted1, granted2, s)

-- The rest of main: the state at its end, and what the second transaction reads.
unfoldable pub resolve : State → Option (State × Option CString)
unfolding mvcc_read find_versions latest is_visible commit_tx stamp abort_tx map_versions
    release_locks deactivate str_eq detect_deadlock detect_cycle_util scan child enter leave
resolve s = do
  found ← detect_deadlock s.wait_for max_tx
  let s = if found then abort_tx s 2 else s
  let s = if (s.transactions 1).active then commit_tx s 1 else s
  some (s, mvcc_read s 2 key_x)

unfoldable pub main : Option (Bool × Option CString)
unfolding contend resolve
main = do
  (granted1, granted2, s) ← contend
  (t, val) ← resolve s
  some ((t.transactions 2).active, val)
