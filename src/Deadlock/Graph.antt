-- ===== src/Deadlock/Graph.antt =====
-- transaction_mvcc.c: cycles of the wait-for graph, and how many vertices the search has not visited.
use mathlib.Core.WellFounded.{Acc}
use leetcode.Base.{
  ℕ, zero, suc, ◌+◌, ◌≤◌, ◌<◌, ◌≡◌, Bool, true, false, arith, if◌then◌else◌, update,
}

module _ (wait_for : ℕ → ℕ → Bool) (n : ℕ) where
  -- `v` waits for `u`, one of the first `n` transactions.
  abbrev pub Edge : ℕ → ℕ → Type 0
  Edge v u = (wait_for v u ≡ true) × (u < n)

  pub data Walk : ℕ → ℕ → Type 0 where
    one : {v u : ℕ} → Edge v u → Walk v u
    more : {v u w : ℕ} → Edge v u → Walk u w → Walk v w

  abbrev pub Cycle : Type 0
  Cycle = (v : ℕ) × Walk v v

  -- No endless walk starts at `v`.
  abbrev pub Ends : ℕ → Type 0
  Ends = Acc (λ u v. Edge v u)

  pub walk_snoc : {v u w : ℕ} → Walk v u → Edge u w → Walk v w
  walk_snoc (one e) f = more e (one f)
  walk_snoc (more e p) f = more e (walk_snoc p f)

  walk_first : {v w : ℕ} → Walk v w → (u : ℕ) × Edge v u × ((w' : ℕ) → Edge w w' → Walk u w')
  walk_first (one {u} e) = (u, e, λ w' f. one f)
  walk_first (more {u} e p) = (u, e, λ w' f. walk_snoc p f)

  not_cycle : (v : ℕ) → Ends v → ¬ Walk v v
  not_cycle v (Acc.intro _ smaller) p =
      let (u, e, back) = walk_first p in not_cycle u (smaller u e) (back u e)

  walk_bound : {v w : ℕ} → Walk v w → w < n
  walk_bound (one e) = e.1
  walk_bound (more e p) = walk_bound p

  pub acyclic : ((v : ℕ) → v < n → Ends v) → ¬ Cycle
  acyclic ends (v, p) = not_cycle v (ends v (walk_bound p)) p

-- How many of the first `n` are not marked.
pub unvisited : (ℕ → Bool) → ℕ → ℕ
unvisited p zero = 0
unvisited p (suc n) = (if p n then 0 else 1) + unvisited p n

pub unvisited_mono :
    (p q : ℕ → Bool) (n : ℕ) → ((w : ℕ) → p w ≡ true → q w ≡ true) → unvisited q n ≤ unvisited p n
unfolding unvisited
unvisited_mono p q zero h = omega arith
unvisited_mono p q (suc n) h = ground (arith, h n, unvisited_mono p q n h)

pub unvisited_mark :
    (p : ℕ → Bool) (v n : ℕ) → v < n → p v ≡ false → unvisited (update p v true) n < unvisited p n
unfolding unvisited
unvisited_mark p v zero lt e = elim lt [ ]
unvisited_mark p v (suc n) lt e =
    ground (arith, unvisited_mono p (update p v true) n (λ w h. ground arith), unvisited_mark p v n)

pub unvisited-le : (p : ℕ → Bool) (n : ℕ) → unvisited p n ≤ n
unfolding unvisited
unvisited-le p zero = omega arith
unvisited-le p (suc n) = ground (arith, unvisited-le p n)
