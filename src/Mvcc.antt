-- ===== src/Mvcc.antt =====
-- transaction_mvcc.c: the multi-version store, its locks and its transactions. A `Transaction *` is
-- an index into `transactions`; a C array that is never resized is a function of its index. `none`
-- is a write outside an array: a key past MAX_KEYS, a transaction past MAX_TX. Memory is not
-- exhausted, and the logical clock `global_ts` does not wrap (2^31 begins and commits).
-- The search for a deadlock is in Deadlock.
pub mod Db
pub mod Visibility
pub mod Locks
pub mod Exclusion
pub mod Lifecycle
mod Run
mod Tests
use leetcode.Base.{
  ℕ, zero, suc, ◌+◌, Bool, true, false, not, ◌&&◌, ◌||◌, Option, none, some, List, [], ◌∷◌, map,
  ltb, leb, ◌==◌, if◌then◌else◌, update, is_some, length, keep, CString, str_eq,
}

pub data LockType : Type 0 where
  read write : LockType

pub record Version : Type 0 where
  pub value : CString
  pub tx_id : ℕ
  pub committed : Bool
  pub commit_ts : ℕ

pub record KvPair : Type 0 where
  pub key : CString
  pub versions : List Version

pub record Lock : Type 0 where
  pub key : CString
  pub type : LockType
  pub tx_id : ℕ

pub record Transaction : Type 0 where
  pub id : ℕ
  pub active : Bool
  pub start_ts : ℕ
  pub locks : List Lock

-- The globals. The head of `versions` is the newest; `db` is db[0 .. db_size - 1].
pub record State : Type 0 where
  pub db : List KvPair
  pub transactions : ℕ → Transaction
  pub global_ts : ℕ
  pub wait_for : ℕ → ℕ → Bool

abbrev pub max_keys : ℕ
max_keys = 128

abbrev pub max_tx : ℕ
max_tx = 32

abbrev pub init : State
init = record {
  db = [];
  transactions = λ i. record { id = 0; active = false; start_ts = 0; locks = [] };
  global_ts = 1;
  wait_for = λ v u. false;
}

-- `for (i < db_size) if (strcmp(db[i].key, key) == 0)`: the versions of the first pair with the key.
unfoldable pub find_versions : CString → List KvPair → Option (List Version)
find_versions k [] = none
find_versions k (p ∷ ps) = if str_eq p.key k then some p.versions else find_versions k ps

-- The two tests of the loop of mvcc_read.
unfoldable pub is_visible : Transaction → Version → Bool
is_visible tx v = v.committed && leb v.commit_ts tx.start_ts || not v.committed && v.tx_id == tx.id

unfoldable pub latest : Transaction → List Version → Option CString
latest tx [] = none
latest tx (v ∷ vs) = if is_visible tx v then some v.value else latest tx vs

unfoldable pub mvcc_read : State → ℕ → CString → Option CString
mvcc_read s i k = elim (find_versions k s.db) [
  | none ↦ none
  | some vs ↦ latest (s.transactions i) vs
]

-- Puts a version in front of those of its key, or adds the key at the end.
unfoldable pub add_version : CString → Version → List KvPair → List KvPair
add_version k v [] = record { key = k; versions = v ∷ [] } ∷ []
add_version k v (p ∷ ps) =
    if str_eq p.key k then record p { versions = v ∷ p.versions } ∷ ps else p ∷ add_version k v ps

abbrev pub tentative : ℕ → CString → Version
tentative id value = record { value = value; tx_id = id; committed = false; commit_ts = 0 }

unfoldable pub mvcc_write : State → ℕ → CString → CString → Option State
mvcc_write s i k value =
    if is_some (find_versions k s.db) || ltb (length s.db) max_keys
    then some (record s { db = add_version k (tentative (s.transactions i).id value) s.db })
    else none

abbrev pub is_write : LockType → Bool
is_write read = false
is_write write = true

unfoldable pub conflicts : CString → LockType → ℕ → Lock → Bool
conflicts k t id l = str_eq l.key k && not (l.tx_id == id) && (is_write l.type || is_write t)

-- The holder of the first lock of a list that stands in the way.
unfoldable pub conflict_in : CString → LockType → ℕ → List Lock → Option ℕ
conflict_in k t id [] = none
conflict_in k t id (l ∷ ls) = if conflicts k t id l then some l.tx_id else conflict_in k t id ls

-- The same over the active transactions from `i` on, `n` of them.
unfoldable pub find_conflict : (ℕ → Transaction) → CString → LockType → ℕ → (n i : ℕ) → Option ℕ
find_conflict txs k t id zero i = none
find_conflict txs k t id (suc n) i =
    elim (if (txs i).active then conflict_in k t id (txs i).locks else none) [
      | some holder ↦ some holder
      | none ↦ find_conflict txs k t id n (i + 1)
    ]

abbrev pub set_tx : State → ℕ → Transaction → State
set_tx s i tx = record s { transactions = update s.transactions i tx }

unfoldable pub acquire_lock : State → ℕ → CString → LockType → Bool × State
acquire_lock s i k t =
    let tx = s.transactions i in
    elim (find_conflict s.transactions k t tx.id max_tx 0) [
      | some holder ↦ (
        false,
        record s { wait_for = update s.wait_for tx.id (update (s.wait_for tx.id) holder true) },
      )
      | none ↦
          let l : Lock = record { key = k; type = t; tx_id = tx.id } in
          (true, set_tx s i (record tx { locks = l ∷ tx.locks }))
    ]

unfoldable pub release_locks : State → ℕ → State
release_locks s i = set_tx s i (record (s.transactions i) { locks = [] })

-- The slot's locks are dropped, whatever they were.
unfoldable pub begin_tx : State → ℕ → Option State
begin_tx s id =
    if ltb id max_tx
    then some (record s {
      transactions =
          update s.transactions id
            (record { id = id; active = true; start_ts = s.global_ts; locks = [] });
      global_ts = s.global_ts + 1;
    })
    else none

unfoldable pub stamp : ℕ → ℕ → Version → Version
stamp id ts v = if v.tx_id == id then record v { committed = true; commit_ts = ts } else v

-- A change of the version list of every key.
unfoldable pub map_versions : (List Version → List Version) → List KvPair → List KvPair
map_versions f = map (λ (p : KvPair). record p { versions = f p.versions })

unfoldable pub deactivate : State → ℕ → State
deactivate s i = set_tx s i (record (s.transactions i) { active = false })

unfoldable pub commit_tx : State → ℕ → State
unfolding release_locks deactivate
commit_tx s i =
    let id = (s.transactions i).id in
    let stamped = record s {
      db = map_versions (map (stamp id s.global_ts)) s.db;
      global_ts = s.global_ts + 1;
    } in
    deactivate (release_locks stamped i) i

unfoldable pub abort_tx : State → ℕ → State
unfolding release_locks deactivate
abort_tx s i =
    let id = (s.transactions i).id in
    let removed = record s { db = map_versions (keep (λ v. not (v.tx_id == id))) s.db } in
    deactivate (release_locks removed i) i
