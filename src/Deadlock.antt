-- ===== src/Deadlock.antt =====
-- transaction_mvcc.c: detect_cycle_util and detect_deadlock, the depth-first search for a cycle in
-- the wait-for graph. The globals `visited` and `stack` are passed on; `none` means that the fuel
-- ran out, which bounds the depth of the recursion.
pub mod Graph
pub mod Search
pub mod Verdict
mod Tests
use leetcode.Base.{
  ℕ, zero, suc, ◌+◌, Bool, true, false, ◌||◌, Option, none, some, if◌then◌else◌, update,
}

pub record Marks : Type 0 where
  pub visited : ℕ → Bool
  pub stack : ℕ → Bool

unfoldable pub enter : ℕ → Marks → Marks
enter v m = record { visited = update m.visited v true; stack = update m.stack v true }

unfoldable pub leave : ℕ → Marks → Marks
leave v m = record m { stack = update m.stack v false }

abbrev pub unmarked : Marks
unmarked = record { visited = λ v. false; stack = λ v. false }

-- Whether the search found a cycle, and the marks that it leaves.
abbrev pub Answer : Type 0
Answer = Option (Bool × Marks)

module _ (wait_for : ℕ → ℕ → Bool) where
  -- The body of the loop of detect_cycle_util at the vertex `u`: whether it returns 1.
  unfoldable pub child : (ℕ → Marks → Answer) → (v u : ℕ) → Marks → Answer
  child visit v u m =
      if wait_for v u
      then (if m.visited u
          then some (m.stack u, m)
          else elim (visit u m) [ none ↦ none | some (found, m') ↦ some (found || m'.stack u, m') ])
      else some (false, m)

  -- The loop, with the vertices from `u` on, `rounds` of them.
  unfoldable pub scan : (ℕ → Marks → Answer) → (v rounds u : ℕ) → Marks → Answer
  scan visit v zero u m = some (false, m)
  scan visit v (suc rounds) u m = elim (child visit v u m) [
    | none ↦ none
    | some (found, m') ↦ elim found [
      | true ↦ some (true, m')
      | false ↦ scan visit v rounds (u + 1) m'
    ]
  ]

  unfoldable pub detect_cycle_util : (n fuel v : ℕ) → Marks → Answer
  detect_cycle_util n zero v m = none
  detect_cycle_util n (suc fuel) v m = elim (scan (detect_cycle_util n fuel) v n 0 (enter v m)) [
    | none ↦ none
    | some (found, m') ↦ some (found, if found then m' else leave v m')
  ]

  -- The loop of detect_deadlock, with the vertices from `i` on, `rounds` of them.
  unfoldable pub roots : (n rounds i : ℕ) → Marks → Option Bool
  roots n zero i m = some false
  roots n (suc rounds) i m =
      elim (if m.visited i then some (false, m) else detect_cycle_util n n i m) [
        | none ↦ none
        | some (found, m') ↦ elim found [ true ↦ some true | false ↦ roots n rounds (i + 1) m' ]
      ]

  unfoldable pub detect_deadlock : ℕ → Option Bool
  unfolding roots
  detect_deadlock n = roots n n 0 unmarked
