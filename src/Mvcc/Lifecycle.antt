-- ===== src/Mvcc/Lifecycle.antt =====
-- transaction_mvcc.c: whole lives of transactions: begin_tx, mvcc_write, commit_tx and abort_tx in a row.
use leetcode.Base.{
  ℕ, ◌≡◌, ◌≢◌, refl, ◌∙◌, Option, none, some, List, [], ◌∷◌, not, keep, map, arith, ◌==◌,
  if◌then◌else◌, All, CString, str_eq, str_eq_refl, Option-cases, inl, inr,
}
use leetcode.Mvcc.{
  Version, State, tentative, is_visible, latest, mvcc_read, mvcc_write, stamp, commit_tx, abort_tx,
  begin_tx,
}
use leetcode.Mvcc.Db.{versions_of, mvcc_read_lem, versions_of-add_version}
use leetcode.Mvcc.Visibility.{
  commit-versions, abort-versions, begin_fields, commit-global_ts, commit-SameTx,
}

-- A row of writes by one transaction.
unfoldable pub write_all : State → ℕ → List (CString × CString) → Option State
write_all s i [] = some s
write_all s i ((k, v) ∷ ws) = elim (mvcc_write s i k v) [ none ↦ none | some t ↦ write_all t i ws ]

write_versions :
    (s t : State) (i : ℕ) (k v : CString)
    → mvcc_write s i k v ≡ some t
    → (l : CString)
    → (versions_of l t.db ≡ (
        if str_eq k l
        then tentative (s.transactions i).id v ∷ versions_of l s.db
        else versions_of l s.db))
      × (t.transactions ≡ s.transactions)
      × (t.global_ts ≡ s.global_ts)
unfolding mvcc_write
write_versions s t i k v e l =
    ground (arith, versions_of-add_version l k (tentative (s.transactions i).id v) s.db)

keep_none :
    (id : ℕ) (vs : List Version)
    → All (λ v. v.tx_id ≢ id) vs
    → keep (λ v. not (v.tx_id == id)) vs ≡ vs
keep_none id [] h = refl
keep_none id (v ∷ vs) h = ground (arith, h.0, keep_none id vs)

-- What is left of a key's versions once those of transaction `i` are taken out.
abbrev pub without : State → ℕ → CString → List Version
without s i l = keep (λ v. not (v.tx_id == (s.transactions i).id)) (versions_of l s.db)

write-without :
    (s t : State) (i : ℕ) (k v : CString)
    → mvcc_write s i k v ≡ some t
    → (l : CString) → without t i l ≡ without s i l
write-without s t i k v e l =
    let (vs, txs, _) = write_versions s t i k v e l in rw (vs, txs) (ground arith)

write_all-without :
    (s t : State) (i : ℕ) (ws : List (CString × CString))
    → write_all s i ws ≡ some t
    → (l : CString) → without t i l ≡ without s i l
unfolding write_all
write_all-without s t i [] e l = cc
write_all-without s t i ((k, v) ∷ ws) e l = elim (Option-cases (mvcc_write s i k v)) [
  | inl no_room ↦ absurd (ground arith)
  | inr (u, w) ↦ write_all-without u t i ws (rw (w, write_all) at e) l ∙ write-without s u i k v w l
]

-- An abort takes back any row of writes: the versions of every key are those before the writes, if
-- the store held none under the id of the transaction.
pub abort-write_all :
    (s t : State) (i : ℕ) (ws : List (CString × CString))
    → write_all s i ws ≡ some t
    → ((l : CString) → All (λ v. v.tx_id ≢ (s.transactions i).id) (versions_of l s.db))
    → (l : CString) → versions_of l (abort_tx t i).db ≡ versions_of l s.db
abort-write_all s t i ws e none_of l =
    abort-versions t i l
    ∙ write_all-without s t i ws e l
    ∙ keep_none _ (versions_of l s.db) (none_of l)

-- Two transactions with different ids write the same key, and the one that wrote first commits
-- last. A later transaction reads the value of the other, although the value of the first is the
-- newest commit: the list of versions is in the order of the writes, not of the commits.
pub late_commit_hidden :
    (s s' s'' t : State) (i j l : ℕ) (k a b : CString)
    → mvcc_write s i k a ≡ some s'
    → mvcc_write s' j k b ≡ some s''
    → (s.transactions i).id ≢ (s.transactions j).id
    → begin_tx (commit_tx (commit_tx s'' j) i) l ≡ some t
    → mvcc_read t l k ≡ some b
unfolding latest is_visible stamp
late_commit_hidden s s' s'' t i j l k a b e f ne g =
    let (vs, txs, now) = write_versions s' s'' j k b f k in
    let (vs', txs', now') = write_versions s s' i k a e k in
    let (db, id, start) = begin_fields _ t l g in
    rw
      (
        mvcc_read_lem t l k,
        db,
        commit-versions (commit_tx s'' j) i k,
        commit-versions s'' j k,
        vs,
        str_eq_refl k,
      )
      (ground (
        arith,
        commit-SameTx s'' j i,
        commit-global_ts s'' j,
        commit-global_ts (commit_tx s'' j) i,
      ))

keep-stamp :
    (id ts : ℕ) (vs : List Version)
    → keep (λ v. not (v.tx_id == id)) (map (stamp id ts) vs) ≡ keep (λ v. not (v.tx_id == id)) vs
unfolding stamp
keep-stamp id ts [] = refl
keep-stamp id ts (v ∷ vs) = ground (arith, keep-stamp id ts vs)

-- A slot is used for a second transaction, which aborts: the value that the first one committed
-- goes with it, although the second could read it and wrote nothing.
pub abort_drops_committed :
    (s t u : State) (i : ℕ) (k v : CString)
    → mvcc_write s i k v ≡ some t
    → begin_tx (commit_tx t i) i ≡ some u
    → (s.transactions i).id ≡ i
    → (mvcc_read u i k ≡ some v) × (versions_of k (abort_tx u i).db ≡ without s i k)
unfolding latest is_visible stamp
abort_drops_committed s t u i k v e f named =
    let (vs, txs, now) = write_versions s t i k v e k in
    let (db, id, start) = begin_fields _ u i f in
    (
      rw (mvcc_read_lem u i k, db, commit-versions t i k, vs, str_eq_refl k)
          (ground (arith, commit-global_ts t i)),
      rw (abort-versions u i k, db, commit-versions t i k, id, txs, named, vs, str_eq_refl k)
          (ground (arith, named, keep-stamp i t.global_ts (versions_of k s.db))),
    )
