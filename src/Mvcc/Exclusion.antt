-- ===== src/Mvcc/Exclusion.antt =====
-- transaction_mvcc.c: two active transactions never hold locks that conflict.
use leetcode.Base.{
  ℕ, ◌<◌, ◌≡◌, ◌≢◌, refl, sym, ◌∙◌, true, false, ◌&&◌, ◌||◌, inl, inr, some, List, [], ◌∷◌, arith,
  update, All, CString, str_eq, str_eq_comm, update-cases,
}
use leetcode.Mvcc.{
  LockType, Lock, Transaction, State, is_write, max_tx, conflicts, init, acquire_lock, begin_tx,
  commit_tx, abort_tx, mvcc_write,
}
use leetcode.Mvcc.Locks.{Unopposed, acquire_cases}

-- Two locks may be held at once: on different keys, or both for reading.
abbrev pub Compatible : Lock → Lock → Type 0
Compatible l m = (str_eq l.key m.key && (is_write l.type || is_write m.type)) ≡ false

abbrev pub AllCompatible : List Lock → List Lock → Type 0
AllCompatible ls ms = All (λ l. All (λ m. Compatible l m) ms) ls

-- The invariant of the lock table: an active slot is inside the array, carries its own index, holds
-- locks under this id only, and those of two active slots are compatible.
pub record IsLocked (txs : ℕ → Transaction) : Type 0 where
  pub room : (i : ℕ) → (txs i).active ≡ true → i < max_tx
  pub named : (i : ℕ) → (txs i).active ≡ true → (txs i).id ≡ i
  pub owned : (i : ℕ) → (txs i).active ≡ true → All (λ l. l.tx_id ≡ i) (txs i).locks
  pub apart :
      (i j : ℕ)
      → (txs i).active ≡ true
      → (txs j).active ≡ true
      → i ≢ j
      → AllCompatible (txs i).locks (txs j).locks

-- The new lock against locks of another slot that do not conflict.
new-Compatible :
    (k : CString) (t : LockType) (i j : ℕ) (ls : List Lock)
    → i ≢ j
    → All (λ l. l.tx_id ≡ j) ls
    → All (λ l. conflicts k t i l ≡ false) ls
    → All (λ m. Compatible (record { key = k; type = t; tx_id = i }) m) ls
unfolding conflicts
new-Compatible k t i j [] ne own h = tt
new-Compatible k t i j (l ∷ ls) ne own h =
    (ground (arith, own.0, h.0, str_eq_comm k l.key), new-Compatible k t i j ls ne own.1 h.1)

compatible_new :
    (k : CString) (t : LockType) (i j : ℕ) (ls ms : List Lock)
    → i ≢ j
    → All (λ l. l.tx_id ≡ j) ls
    → All (λ l. conflicts k t i l ≡ false) ls
    → AllCompatible ls ms
    → AllCompatible ls (record { key = k; type = t; tx_id = i } ∷ ms)
unfolding conflicts
compatible_new k t i j [] ms ne own h c = tt
compatible_new k t i j (l ∷ ls) ms ne own h c =
    ((ground (arith, own.0, h.0), c.0), compatible_new k t i j ls ms ne own.1 h.1 c.1)

AllCompatible-nil : (ls : List Lock) → AllCompatible ls []
AllCompatible-nil [] = tt
AllCompatible-nil (l ∷ ls) = (tt, AllCompatible-nil ls)

-- Slots that are still active are as they were.
restrict-IsLocked :
    (txs new : ℕ → Transaction)
    → IsLocked txs
    → ((j : ℕ) → (new j).active ≡ true → new j ≡ txs j)
    → IsLocked new
restrict-IsLocked txs new v same = record {
  room = λ i a. v.room i (rw (same i a) at a);
  named = λ i a. rw (same i a) (v.named i (rw (same i a) at a));
  owned = λ i a. rw (same i a) (v.owned i (rw (same i a) at a));
  apart = λ i j a b ne.
      rw (same i a, same j b) (v.apart i j (rw (same i a) at a) (rw (same j b) at b) ne);
}

-- A slot gets a new list of locks, all under its index and compatible with the others' locks.
replace-IsLocked :
    (txs : ℕ → Transaction) (i : ℕ) (tx : Transaction)
    → IsLocked txs
    → i < max_tx
    → tx.id ≡ i
    → All (λ l. l.tx_id ≡ i) tx.locks
    → ((j : ℕ)
        → (txs j).active ≡ true
        → j ≢ i
        → AllCompatible tx.locks (txs j).locks × AllCompatible (txs j).locks tx.locks)
    → IsLocked (update txs i tx)
replace-IsLocked txs i tx v lt id own new = record {
  room = λ j.
      update-cases (λ t. t.active ≡ true → j < max_tx) txs i tx j (λ e a. rw e lt) (λ ne. v.room j);
  named = λ j.
      update-cases (λ t. t.active ≡ true → t.id ≡ j) txs i tx j (λ e a. id ∙ sym e)
        (λ ne. v.named j);
  owned = λ j.
      update-cases (λ t. t.active ≡ true → All (λ l. l.tx_id ≡ j) t.locks) txs i tx j
        (λ e a. rw e own) (λ ne. v.owned j);
  apart = λ j m.
      update-cases
        (λ t.
          t.active ≡ true
          → (update txs i tx m).active ≡ true
          → j ≢ m
          → AllCompatible t.locks (update txs i tx m).locks)
        txs i tx j
        (λ e a.
          update-cases (λ t. t.active ≡ true → j ≢ m → AllCompatible tx.locks t.locks) txs i tx m
            (λ e' b ne. absurd (ne (e ∙ sym e'))) (λ ne' b ne. (new m b ne').0))
        (λ out a.
          update-cases (λ t. t.active ≡ true → j ≢ m → AllCompatible (txs j).locks t.locks) txs i tx
            m (λ e' b ne. (new j a out).1) (λ ne' b ne. v.apart j m a b ne));
}

acquire-IsLocked :
    (s : State) (i : ℕ) (k : CString) (t : LockType)
    → IsLocked s.transactions
    → (s.transactions i).active ≡ true
    → IsLocked (acquire_lock s i k t).1.transactions
acquire-IsLocked s i k t v a = elim (acquire_cases s i k t).0 [
  | inr (_, (l, opposed, same, edges)) ↦ rw same v
  | inl (_, (free, new, _)) ↦
      let named = v.named i a in
      let free' : Unopposed s.transactions k t i = rw named at free in
      rw new (
        replace-IsLocked s.transactions i _ v (v.room i a) named (named, v.owned i a)
          λ j b ne. (
            (
              new-Compatible k t i j _ (λ e. ne (sym e)) (v.owned j b) (free' j b (v.room j b)),
              v.apart i j a b (λ e. ne (sym e)),
            ),
            compatible_new k t i j _ _ (λ e. ne (sym e)) (v.owned j b) (free' j b (v.room j b))
                (v.apart j i b a ne),
          ))
]

abbrev started : State → ℕ → Transaction
started s i = record { id = i; active = true; start_ts = s.global_ts; locks = [] }

begin_transactions :
    (s t : State) (i : ℕ)
    → begin_tx s i ≡ some t
    → (i < max_tx) × (t.transactions ≡ update s.transactions i (started s i))
unfolding begin_tx
begin_transactions s t i e = ground arith

begin-IsLocked :
    (s t : State) (i : ℕ)
    → begin_tx s i ≡ some t
    → IsLocked s.transactions
    → IsLocked t.transactions
begin-IsLocked s t i e v =
    let (lt, new) = begin_transactions s t i e in
    rw new (
      replace-IsLocked s.transactions i (started s i) v lt refl tt
        λ j a ne. (tt, AllCompatible-nil (s.transactions j).locks))

commit-IsLocked :
    (s : State) (i : ℕ) → IsLocked s.transactions → IsLocked (commit_tx s i).transactions
unfolding commit_tx
commit-IsLocked s i v = restrict-IsLocked s.transactions _ v λ j a. ground arith

abort-IsLocked :
    (s : State) (i : ℕ) → IsLocked s.transactions → IsLocked (abort_tx s i).transactions
unfolding abort_tx
abort-IsLocked s i v = restrict-IsLocked s.transactions _ v λ j a. ground arith

write_transactions :
    (s t : State) (i : ℕ) (k v : CString)
    → mvcc_write s i k v ≡ some t
    → t.transactions ≡ s.transactions
unfolding mvcc_write
write_transactions s t i k v e = ground arith

-- The calls of a program. `lock` stands for acquire_lock with its answer ignored: what the caller
-- does next is the next call. Only an active transaction asks for locks.
pub data Step (s : State) : State → Type 0 where
  begin : {t : State} (i : ℕ) → begin_tx s i ≡ some t → Step s t
  put : {t : State} (i : ℕ) (k v : CString) → mvcc_write s i k v ≡ some t → Step s t
  lock :
      (i : ℕ) (k : CString) (t : LockType)
      → (s.transactions i).active ≡ true
      → Step s (acquire_lock s i k t).1
  commit : (i : ℕ) → Step s (commit_tx s i)
  abort : (i : ℕ) → Step s (abort_tx s i)

pub data Reach (s : State) : State → Type 0 where
  here : Reach s s
  next : {t u : State} → Reach s t → Step t u → Reach s u

Step-IsLocked : {s t : State} → Step s t → IsLocked s.transactions → IsLocked t.transactions
Step-IsLocked (begin i e) v = begin-IsLocked _ _ i e v
Step-IsLocked (put i k x e) v = rw (write_transactions _ _ i k x e) v
Step-IsLocked {s} (lock i k t a) v = acquire-IsLocked s i k t v a
Step-IsLocked {s} (commit i) v = commit-IsLocked s i v
Step-IsLocked {s} (abort i) v = abort-IsLocked s i v

init-IsLocked : IsLocked init.transactions
init-IsLocked = record {
  room = λ i a. cc;
  named = λ i a. cc;
  owned = λ i a. cc;
  apart = λ i j a. cc;
}

Reach-IsLocked : {s : State} → Reach init s → IsLocked s.transactions
Reach-IsLocked here = init-IsLocked
Reach-IsLocked (next r st) = Step-IsLocked st (Reach-IsLocked r)

-- After any calls from the initial state, of any transactions in any order, two active transactions
-- hold no locks in conflict: no two locks on one key of which one is for writing. Each lock is
-- under the id of the transaction that holds it.
pub locks_exclude :
    {s : State}
    → Reach init s
    → (i j : ℕ) → (s.transactions i).active ≡ true
    → (s.transactions j).active ≡ true
    → i ≢ j
    → AllCompatible (s.transactions i).locks (s.transactions j).locks
      × All (λ l. l.tx_id ≡ i) (s.transactions i).locks
locks_exclude r i j a b ne = let v = Reach-IsLocked r in (v.apart i j a b ne, v.owned i a)
