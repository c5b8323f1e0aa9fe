-- ===== src/Mvcc/Locks.antt =====
-- transaction_mvcc.c: what acquire_lock finds out, and what it does in each case.
use leetcode.Base.{
  ℕ, zero, suc, ◌+◌, ◌<◌, ◌≤◌, ◌≡◌, refl, true, false, ◌&&◌, inl, inr, ◌⊎◌, none, some, List, [],
  ◌∷◌, arith, ◌==◌, if◌then◌else◌, update, All, Option-cases, CString, subst, get_elem?, Bool-cases,
}
use native.Mathlib.Decide.{ℕ_discrete}
use leetcode.Mvcc.{
  LockType, Lock, Transaction, State, max_tx, conflicts, conflict_in, find_conflict, acquire_lock,
}

conflict_in-none :
    (k : CString) (t : LockType) (id : ℕ) (ls : List Lock)
    → conflict_in k t id ls ≡ none
    → All (λ l. conflicts k t id l ≡ false) ls
unfolding conflict_in
conflict_in-none k t id [] e = tt
conflict_in-none k t id (l ∷ ls) e = ground (arith, conflict_in-none k t id ls)

find_conflict_step :
    (txs : ℕ → Transaction) (k : CString) (t : LockType) (id n i : ℕ)
    → find_conflict txs k t id (suc n) i ≡ none
    → ((txs i).active ≡ true → conflict_in k t id (txs i).locks ≡ none)
      × (find_conflict txs k t id n (i + 1) ≡ none)
unfolding find_conflict
find_conflict_step txs k t id n i e = ground arith

find_conflict-none :
    (txs : ℕ → Transaction) (k : CString) (t : LockType) (id n i j : ℕ)
    → find_conflict txs k t id n i ≡ none
    → (txs j).active ≡ true
    → i ≤ j
    → j < i + n
    → All (λ l. conflicts k t id l ≡ false) (txs j).locks
find_conflict-none txs k t id zero i j e a lo hi = absurd (omega arith)
find_conflict-none txs k t id (suc n) i j e a lo hi =
    let (here, rest) = find_conflict_step txs k t id n i e in
    elim (ℕ_discrete i j) [
      | yes p ↦
          subst (λ m. All (λ l. conflicts k t id l ≡ false) (txs m).locks) p
            (conflict_in-none k t id (txs i).locks (here (rw p a)))
      | no p ↦ find_conflict-none txs k t id n (i + 1) j rest a (omega arith) (omega arith)
    ]

-- No active transaction with another id holds a lock in conflict with the one that is asked for.
abbrev pub Unopposed : (ℕ → Transaction) → CString → LockType → ℕ → Type 0
Unopposed txs k t id =
    (j : ℕ)
    → (txs j).active ≡ true
    → j < max_tx
    → All (λ l. conflicts k t id l ≡ false) (txs j).locks

-- Some active transaction holds the lock `l`, in conflict with the one that is asked for.
abbrev pub Opposed : (ℕ → Transaction) → CString → LockType → ℕ → Lock → Type 0
Opposed txs k t id l =
    (j n : ℕ) × (j < max_tx)
    × ((txs j).active ≡ true)
    × (get_elem? (txs j).locks n ≡ some l)
    × (conflicts k t id l ≡ true)

conflict_in-some :
    (k : CString) (t : LockType) (id holder : ℕ) (ls : List Lock)
    → conflict_in k t id ls ≡ some holder
    → (l : Lock) × (n : ℕ) × (get_elem? ls n ≡ some l)
      × (conflicts k t id l ≡ true)
      × (l.tx_id ≡ holder)
unfolding conflict_in
conflict_in-some k t id holder [] e = cc
conflict_in-some k t id holder (l ∷ ls) e = elim (Bool-cases (conflicts k t id l)) [
  | inl c ↦ (l, 0, refl, c, ground arith)
  | inr c ↦
      let (m, n, at, c', h) = conflict_in-some k t id holder ls (ground arith) in
      (m, suc n, at, c', h)
]

find_conflict_split :
    (txs : ℕ → Transaction) (k : CString) (t : LockType) (id holder n i : ℕ)
    → find_conflict txs k t id (suc n) i ≡ some holder
    → (((txs i).active ≡ true) × (conflict_in k t id (txs i).locks ≡ some holder))
      ⊎ (find_conflict txs k t id n (i + 1) ≡ some holder)
unfolding find_conflict
find_conflict_split txs k t id holder n i e = ground arith

find_conflict-some :
    (txs : ℕ → Transaction) (k : CString) (t : LockType) (id holder n i : ℕ)
    → find_conflict txs k t id n i ≡ some holder
    → i + n ≤ max_tx
    → (l : Lock) × (l.tx_id ≡ holder) × Opposed txs k t id l
unfolding find_conflict
find_conflict-some txs k t id holder zero i e h = cc
find_conflict-some txs k t id holder (suc n) i e h =
    elim (find_conflict_split txs k t id holder n i e) [
      | inl (a, found) ↦
          let (l, m, at, c, own) = conflict_in-some k t id holder (txs i).locks found in
          (l, own, (i, m, omega arith, a, at, c))
      | inr later ↦ find_conflict-some txs k t id holder n (i + 1) later (omega arith)
    ]

abbrev pub new_lock : CString → LockType → ℕ → Lock
new_lock k t id = record { key = k; type = t; tx_id = id }

abbrev pub Granted : State → ℕ → CString → LockType → State → Type 0
Granted s i k t r =
    Unopposed s.transactions k t (s.transactions i).id
    × (r.transactions
        ≡ update s.transactions i (record (s.transactions i) {
          locks = new_lock k t (s.transactions i).id ∷ (s.transactions i).locks;
        }))
    × (r.wait_for ≡ s.wait_for)

abbrev pub Refused : State → ℕ → CString → LockType → State → Type 0
Refused s i k t r =
    (l : Lock) × Opposed s.transactions k t (s.transactions i).id l
    × (r.transactions ≡ s.transactions)
    × ((v u : ℕ)
        → r.wait_for v u
          ≡ (if (s.transactions i).id == v && l.tx_id == u then true else s.wait_for v u))

-- acquire_lock grants a lock exactly when no other active transaction holds one in conflict, puts it
-- in front of the caller's locks and changes nothing else of the lock table or of the wait-for
-- graph. It refuses when such a lock is held, changes no transaction, and adds the edge from the
-- caller to the holder and no other. Either way the store and the clock are unchanged.
pub acquire_cases :
    (s : State) (i : ℕ) (k : CString) (t : LockType)
    → ((((acquire_lock s i k t).0 ≡ true) × Granted s i k t (acquire_lock s i k t).1)
        ⊎ (((acquire_lock s i k t).0 ≡ false) × Refused s i k t (acquire_lock s i k t).1))
      × ((acquire_lock s i k t).1.db ≡ s.db)
      × ((acquire_lock s i k t).1.global_ts ≡ s.global_ts)
unfolding acquire_lock
acquire_cases s i k t = (outcome, ground arith, ground arith)
  where
    txs : ℕ → Transaction
    txs = s.transactions

    outcome :
        (((acquire_lock s i k t).0 ≡ true) × Granted s i k t (acquire_lock s i k t).1)
        ⊎ (((acquire_lock s i k t).0 ≡ false) × Refused s i k t (acquire_lock s i k t).1)
    outcome = elim (Option-cases (find_conflict txs k t (txs i).id max_tx 0)) [
      | inl e ↦
          rw (e, acquire_lock)
            (inl (
              refl,
              (
                λ j a lt. find_conflict-none txs k t (txs i).id max_tx 0 j e a (omega arith) lt,
                refl,
                refl,
              ),
            ))
      | inr (holder, e) ↦
          let (l, own, opposed) =
            find_conflict-some txs k t (txs i).id holder max_tx 0 e (omega arith) in
          rw (e, acquire_lock) (inr (refl, (l, opposed, refl, λ v u. rw own (ground arith))))
    ]
