-- ===== src/Mvcc/Visibility.antt =====
-- transaction_mvcc.c: which values mvcc_read returns, before and after the calls of any transaction.
use leetcode.Base.{
  ℕ, ◌+◌, ◌<◌, ◌≡◌, ◌≢◌, refl, sym, ◌∙◌, true, false, not, ◌&&◌, ◌||◌, Option, none, some, List, [],
  ◌∷◌, map, keep, arith, ◌==◌, if◌then◌else◌, All, CString, str_eq,
}
use leetcode.Mvcc.{
  Version, Transaction, State, tentative, is_visible, latest, mvcc_read, mvcc_write, stamp,
  commit_tx, abort_tx, begin_tx,
}
use leetcode.Mvcc.Db.{versions_of, mvcc_read_lem, versions_of-add_version, versions_of-map_versions}

-- After a write by transaction `i`, a transaction with the same id reads the new value of that key.
-- All other reads, by any transaction, are as before.
pub read-write :
    (s : State) (i : ℕ) (k value : CString) {t : State}
    → mvcc_write s i k value ≡ some t
    → (j : ℕ) (l : CString)
    → mvcc_read t j l ≡ (
        if str_eq k l && (s.transactions i).id == (s.transactions j).id
        then some value
        else mvcc_read s j l)
unfolding mvcc_write latest is_visible
read-write s i k value {t} e j l = ground (
  arith,
  mvcc_read_lem s j l,
  mvcc_read_lem t j l,
  versions_of-add_version l k (tentative (s.transactions i).id value) s.db,
)

-- The versions that a transaction wrote are all uncommitted: its id was not used before.
abbrev pub Fresh : State → ℕ → Type 0
Fresh s i =
    (k : CString)
    → All (λ v. v.tx_id ≡ (s.transactions i).id → v.committed ≡ false) (versions_of k s.db)

latest-stamp :
    (tx : Transaction) (id ts : ℕ) (vs : List Version)
    → tx.id ≢ id
    → tx.start_ts < ts
    → All (λ v. v.tx_id ≡ id → v.committed ≡ false) vs
    → latest tx (map (stamp id ts) vs) ≡ latest tx vs
unfolding latest is_visible stamp
latest-stamp tx id ts [] ne lt h = refl
latest-stamp tx id ts (v ∷ vs) ne lt h = ground (arith, h.0, latest-stamp tx id ts vs)

latest-remove :
    (tx : Transaction) (id : ℕ) (vs : List Version)
    → tx.id ≢ id
    → All (λ v. v.tx_id ≡ id → v.committed ≡ false) vs
    → latest tx (keep (λ v. not (v.tx_id == id)) vs) ≡ latest tx vs
unfolding latest is_visible
latest-remove tx id [] ne h = refl
latest-remove tx id (v ∷ vs) ne h = ground (arith, h.0, latest-remove tx id vs)

-- A read looks only at the id and the start of the transaction.
latest-same :
    (t u : Transaction) (vs : List Version)
    → t.id ≡ u.id
    → t.start_ts ≡ u.start_ts
    → latest t vs ≡ latest u vs
unfolding latest is_visible
latest-same t u [] e f = refl
latest-same t u (v ∷ vs) e f = ground (arith, latest-same t u vs)

-- The end of a transaction, whichever way, keeps the id and the start of every slot.
abbrev pub SameTx : State → State → Type 0
SameTx s t =
    (j : ℕ)
    → ((t.transactions j).id ≡ (s.transactions j).id)
      × ((t.transactions j).start_ts ≡ (s.transactions j).start_ts)

pub commit-SameTx : (s : State) (i : ℕ) → SameTx s (commit_tx s i)
unfolding commit_tx
commit-SameTx s i j = ground arith

abort-SameTx : (s : State) (i : ℕ) → SameTx s (abort_tx s i)
unfolding abort_tx
abort-SameTx s i j = ground arith

pub commit-versions :
    (s : State) (i : ℕ) (k : CString)
    → versions_of k (commit_tx s i).db
      ≡ map (stamp (s.transactions i).id s.global_ts) (versions_of k s.db)
unfolding commit_tx
commit-versions s i k = versions_of-map_versions _ k s.db refl

pub abort-versions :
    (s : State) (i : ℕ) (k : CString)
    → versions_of k (abort_tx s i).db
      ≡ keep (λ v. not (v.tx_id == (s.transactions i).id)) (versions_of k s.db)
unfolding abort_tx
abort-versions s i k = versions_of-map_versions _ k s.db refl

-- Reads are equal where the versions and the fields of the transaction give the same.
mvcc_read-same :
    (s t : State) (j : ℕ) (k : CString)
    → SameTx s t
    → latest (s.transactions j) (versions_of k t.db)
      ≡ latest (s.transactions j) (versions_of k s.db)
    → mvcc_read t j k ≡ mvcc_read s j k
mvcc_read-same s t j k same e =
    mvcc_read_lem t j k
    ∙ latest-same _ _ (versions_of k t.db) (same j).0 (same j).1
    ∙ e
    ∙ sym (mvcc_read_lem s j k)

-- If no version under the id of `i` was committed before, a commit by `i` changes no read of a
-- transaction `j` with another id that began before it, so `j` keeps reading from its snapshot.
pub read-commit :
    (s : State) (i j : ℕ)
    → Fresh s i
    → (s.transactions j).id ≢ (s.transactions i).id
    → (s.transactions j).start_ts < s.global_ts
    → (k : CString) → mvcc_read (commit_tx s i) j k ≡ mvcc_read s j k
read-commit s i j fresh ne began k =
    mvcc_read-same s (commit_tx s i) j k (commit-SameTx s i)
      (rw (commit-versions s i k) (latest-stamp _ _ _ (versions_of k s.db) ne began (fresh k)))

-- If no version under the id of `i` was committed before, an abort by `i` changes no read of a
-- transaction with another id.
pub read-abort :
    (s : State) (i j : ℕ)
    → Fresh s i
    → (s.transactions j).id ≢ (s.transactions i).id
    → (k : CString) → mvcc_read (abort_tx s i) j k ≡ mvcc_read s j k
read-abort s i j fresh ne k =
    mvcc_read-same s (abort_tx s i) j k (abort-SameTx s i)
      (rw (abort-versions s i k) (latest-remove _ _ (versions_of k s.db) ne (fresh k)))

-- The first version of a list that is committed or was written by `id`.
unfoldable pub newest : ℕ → List Version → Option CString
newest id [] = none
newest id (v ∷ vs) = if v.committed || v.tx_id == id then some v.value else newest id vs

-- The versions of a list carry time stamps of the past, and no uncommitted one is by `id`.
abbrev pub Past : ℕ → ℕ → Version → Type 0
Past now id v = (v.committed ≡ true → v.commit_ts < now) × (v.committed ≡ false → v.tx_id ≢ id)

latest-newest :
    (tx : Transaction) (id now : ℕ) (vs : List Version)
    → now < tx.start_ts
    → All (λ v. v.tx_id ≢ id → Past now tx.id v) vs
    → latest tx (map (stamp id now) vs) ≡ newest id vs
unfolding latest is_visible stamp newest
latest-newest tx id now [] lt h = refl
latest-newest tx id now (v ∷ vs) lt h = ground (arith, h.0, latest-newest tx id now vs)

pub commit-global_ts : (s : State) (i : ℕ) → (commit_tx s i).global_ts ≡ s.global_ts + 1
unfolding commit_tx
commit-global_ts s i = refl

-- A transaction starts with its slot's id and the time of the call.
pub begin_fields :
    (s t : State) (j : ℕ)
    → begin_tx s j ≡ some t
    → (t.db ≡ s.db) × ((t.transactions j).id ≡ j) × ((t.transactions j).start_ts ≡ s.global_ts)
unfolding begin_tx
begin_fields s t j e = ground arith

-- A transaction `j` that begins after a commit by `i` reads, for every key, the newest version that
-- is committed or was written by `i`: all of the writes of `i`, and none of a transaction that is
-- still running. The versions of the key that `i` did not write have commit timestamps below the
-- clock, and those of them that are not committed are not under the id of `j`.
pub read-begin-commit :
    (s : State) (i j : ℕ) {t : State}
    → begin_tx (commit_tx s i) j ≡ some t
    → (k : CString)
    → All (λ v. v.tx_id ≢ (s.transactions i).id → Past s.global_ts j v) (versions_of k s.db)
    → mvcc_read t j k ≡ newest (s.transactions i).id (versions_of k s.db)
read-begin-commit s i j {t} e k h =
    let (db, id, start) = begin_fields (commit_tx s i) t j e in
    rw (mvcc_read_lem t j k, db, commit-versions s i k)
      (latest-newest (t.transactions j) (s.transactions i).id s.global_ts (versions_of k s.db)
        (omega (arith, start, commit-global_ts s i)) (rw id h))
