-- ===== src/Deadlock/Verdict.antt =====
-- transaction_mvcc.c: the outer loop of detect_deadlock, and what its answer means.
use leetcode.Base.{
  ℕ, zero, suc, ◌+◌, ◌<◌, ◌≡◌, refl, ◌∙◌, inl, inr, ◌⊎◌, Bool, true, false, Option, none, some,
  arith, Bool-cases,
}
use native.Mathlib.Decide.{ℕ_discrete}
use leetcode.Deadlock.{Marks, Answer, unmarked, roots, detect_deadlock}
use leetcode.Deadlock.Graph.{Cycle, Ends, acyclic, unvisited-le}
use leetcode.Deadlock.Search.{Marked, After, Outcome, cycle, clean, visits}

module _ (wait_for : ℕ → ℕ → Bool) (n : ℕ) where
  data Verdict : Option Bool → Type 0 where
    deadlock : Cycle wait_for n → Verdict (some true)
    free : ((v : ℕ) → v < n → Ends wait_for n v) → Verdict (some false)

  widen :
      (i : ℕ)
      → ((x : ℕ) → x < i → Ends wait_for n x)
      → Ends wait_for n i
      → (x : ℕ) → x < i + 1
      → Ends wait_for n x
  widen i past ends x lt = elim (ℕ_discrete x i) [ yes p ↦ rw p ends | no p ↦ past x (omega arith) ]

  visited :
      {P : Type 0} {m : Marks} {rest : Marks → Option Bool} (r : Answer)
      → Outcome wait_for n P m r
      → ((m' : Marks) → P → After wait_for n m m' → Verdict (rest m'))
      → Verdict (elim r [
        | none ↦ none
        | some (found, m') ↦ elim found [ true ↦ some true | false ↦ rest m' ]
      ])
  visited r (cycle c) h = deadlock c
  visited r (clean p a) h = h _ p a

  -- Between the searches of the outer loop nothing is on the stack.
  roots-Verdict :
      (rounds i : ℕ) (m : Marks)
      → i + rounds ≡ n
      → Marked wait_for n m
      → ((w : ℕ) → m.stack w ≡ false)
      → ((x : ℕ) → x < i → Ends wait_for n x)
      → Verdict (roots wait_for n rounds i m)
  unfolding roots
  roots-Verdict zero i m e ok empty past = free (λ v lt. past v (omega arith))
  roots-Verdict (suc rounds) i m e ok empty past = elim (Bool-cases (m.visited i)) [
    | inl old ↦
        rw (old, roots)
          (roots-Verdict rounds (i + 1) m (omega arith) ok empty
            (widen i past (ok.done i old (empty i))))
    | inr new ↦
        rw (new, roots)
          (visited _
            (visits wait_for n n i m (omega arith) ok new (λ w h. cc (empty w))
              (unvisited-le m.visited n))
            λ m' ends a.
              roots-Verdict rounds (i + 1) m' (omega arith) a.marked (λ w. a.same w ∙ empty w)
                (widen i past ends))
  ]

  verdict_iff :
      (r : Option Bool)
      → Verdict r
      → ((r ≡ some true) × Cycle wait_for n) ⊎ ((r ≡ some false) × (¬ Cycle wait_for n))
  verdict_iff r (deadlock c) = inl (refl, c)
  verdict_iff r (free ends) = inr (refl, acyclic wait_for n ends)

  -- detect_deadlock returns for every wait-for graph on `n` transactions. It answers 1 when some
  -- transaction waits for itself through a chain of others, and 0 when none does.
  pub detect_deadlock_decides :
      ((detect_deadlock wait_for n ≡ some true) × Cycle wait_for n)
      ⊎ ((detect_deadlock wait_for n ≡ some false) × (¬ Cycle wait_for n))
  unfolding detect_deadlock
  detect_deadlock_decides = verdict_iff _ (
      roots-Verdict n 0 unmarked (omega arith) (record { done = λ w h h'. cc; seen = λ w h. cc })
        (λ w. refl) λ x lt. elim lt [ ])
