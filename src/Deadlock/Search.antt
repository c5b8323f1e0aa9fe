-- ===== src/Deadlock/Search.antt =====
-- transaction_mvcc.c: the search of detect_deadlock ends, and its answer is right.
use mathlib.Core.WellFounded.{Acc}
use leetcode.Base.{
  ℕ, zero, suc, ◌+◌, ◌≤◌, ◌<◌, ◌≡◌, refl, subst, inl, inr, ◌⊎◌, Bool, true, false, ◌||◌, none, some,
  arith, if◌then◌else◌, Bool-cases,
}
use native.Mathlib.Decide.{ℕ_discrete}
use leetcode.Deadlock.{Marks, Answer, enter, leave, child, scan, detect_cycle_util}
use leetcode.Deadlock.Graph.{
  Edge, Walk, one, Cycle, Ends, walk_snoc, unvisited, unvisited_mono, unvisited_mark,
}

module _ (wait_for : ℕ → ℕ → Bool) (n : ℕ) where
  -- The marks between calls: vertices off the stack are done with, and those on it were visited.
  pub record Marked (m : Marks) : Type 0 where
    pub done : (w : ℕ) → m.visited w ≡ true → m.stack w ≡ false → Ends wait_for n w
    pub seen : (w : ℕ) → m.stack w ≡ true → m.visited w ≡ true

  pub record After (m m' : Marks) : Type 0 where
    pub marked : Marked m'
    pub same : (w : ℕ) → m'.stack w ≡ m.stack w
    pub grows : (w : ℕ) → m.visited w ≡ true → m'.visited w ≡ true

  pub data Outcome (P : Type 0) (m : Marks) : Answer → Type 0 where
    cycle : {m' : Marks} → Cycle wait_for n → Outcome P m (some (true, m'))
    clean : {m' : Marks} → P → After m m' → Outcome P m (some (false, m'))

  After-refl : (m : Marks) → Marked m → After m m
  After-refl m v = record { marked = v; same = λ w. refl; grows = λ w h. h }

  After-trans : {m m' m'' : Marks} → After m m' → After m' m'' → After m m''
  After-trans a b = record {
    marked = b.marked;
    same = λ w. rw (b.same w) (a.same w);
    grows = λ w h. b.grows w (a.grows w h);
  }

  abbrev OnPath : ℕ → Marks → Type 0
  OnPath v m = (w : ℕ) → m.stack w ≡ true → (w ≡ v) ⊎ Walk wait_for n w v

  -- A back edge closes a cycle.
  back_edge : (v u : ℕ) → (u ≡ v) ⊎ Walk wait_for n u v → Edge wait_for n v u → Cycle wait_for n
  back_edge v u (inl e) edge = (v, one (subst (Edge wait_for n v) e edge))
  back_edge v u (inr p) edge = (u, walk_snoc wait_for n p edge)

  -- What a call for an unvisited vertex promises.
  abbrev pub Visits : (ℕ → Marks → Answer) → ℕ → Type 0
  Visits visit fuel =
      (v : ℕ) (m : Marks)
      → v < n
      → Marked m
      → m.visited v ≡ false
      → ((w : ℕ) → m.stack w ≡ true → Walk wait_for n w v)
      → unvisited m.visited n ≤ fuel
      → Outcome (Ends wait_for n v) m (visit v m)

  module _ (visit : ℕ → Marks → Answer) (fuel : ℕ) (visits : Visits visit fuel) where
    extend_path :
        (v u : ℕ) (m : Marks)
        → OnPath v m
        → Edge wait_for n v u
        → (w : ℕ) → m.stack w ≡ true
        → Walk wait_for n w u
    extend_path v u m path edge w h = elim (path w h) [
      | inl e ↦ rw e (one edge)
      | inr p ↦ walk_snoc wait_for n p edge
    ]

    child-Outcome :
        (v u : ℕ) (m : Marks)
        → u < n
        → Marked m
        → OnPath v m
        → unvisited m.visited n ≤ fuel
        → Outcome (wait_for v u ≡ true → Ends wait_for n u) m (child wait_for visit v u m)
    unfolding child
    child-Outcome v u m lt ok path room = elim (Bool-cases (wait_for v u)) [
      | inr off ↦ rw off (clean (λ h. cc) (After-refl m ok))
      | inl on ↦ rw on (elim (Bool-cases (m.visited u)) [
        | inl old ↦ rw old (elim (Bool-cases (m.stack u)) [
          | inl s ↦ rw s (cycle (back_edge v u (path u s) (on, lt)))
          | inr s ↦ rw s (clean (λ h. ok.done u old s) (After-refl m ok))
        ])
        | inr new ↦ rw new (
            call (visit u m) (visits u m lt ok new (extend_path v u m path (on, lt)) room)
              (ground (arith, ok.seen u)))
      ])
    ]
      where
        call :
            (r : Answer)
            → Outcome (Ends wait_for n u) m r
            → m.stack u ≡ false
            → Outcome
                (true ≡ true → Ends wait_for n u)
                m
                (elim r [ none ↦ none | some (found, m') ↦ some (found || m'.stack u, m') ])
        call r (cycle c) off = cycle c
        call r (clean e a) off = rw (a.same u, off) (clean (λ h. e) a)

    -- One round of a loop, and the rounds after it.
    and_then :
        {P Q : Type 0} (m : Marks) (rest : Marks → Answer) (r : Answer)
        → Outcome P m r
        → ((m' : Marks) → P → After m m' → Outcome Q m' (rest m'))
        → Outcome Q m (elim r [
          | none ↦ none
          | some (found, m') ↦ elim found [ true ↦ some (true, m') | false ↦ rest m' ]
        ])
    and_then m rest r (cycle c) h = cycle c
    and_then {Q} m rest r (clean {m'} p a) h = after (rest m') (h m' p a)
      where
        after : (r' : Answer) → Outcome Q m' r' → Outcome Q m r'
        after r' (cycle c) = cycle c
        after r' (clean q b) = clean q (After-trans a b)

    -- The marks after a round still suit the loop.
    OnPath-After : (v : ℕ) {m m' : Marks} → After m m' → OnPath v m → OnPath v m'
    OnPath-After v a path w h = path w (rw (a.same w) at h)

    room-After :
        {m m' : Marks} → After m m' → unvisited m.visited n ≤ fuel → unvisited m'.visited n ≤ fuel
    room-After {m} {m'} a room = omega (arith, unvisited_mono m.visited m'.visited n a.grows)

    scan-Outcome :
        (v rounds u : ℕ) (m : Marks)
        → u + rounds ≡ n
        → Marked m
        → OnPath v m
        → unvisited m.visited n ≤ fuel
        → ((x : ℕ) → x < u → wait_for v x ≡ true → Ends wait_for n x)
        → Outcome
            ((x : ℕ) → Edge wait_for n v x → Ends wait_for n x)
            m
            (scan wait_for visit v rounds u m)
    unfolding scan
    scan-Outcome v zero u m e ok path room past =
        clean (λ x edge. past x (omega arith) edge.0) (After-refl m ok)
    scan-Outcome v (suc rounds) u m e ok path room past =
        and_then m (scan wait_for visit v rounds (u + 1)) (child wait_for visit v u m)
          (child-Outcome v u m (omega arith) ok path room)
          λ m' here a.
            scan-Outcome v rounds (u + 1) m' (omega arith) a.marked (OnPath-After v a path)
              (room-After a room)
              λ x lt on. elim (ℕ_discrete x u) [
                | yes p ↦ rw p (here (rw p at on))
                | no p ↦ past x (omega arith) on
              ]

  enter-Marked : (v : ℕ) (m : Marks) → Marked m → Marked (enter v m)
  unfolding enter
  enter-Marked v m ok = record {
    done = λ w h h'. ground (arith, ok.done w);
    seen = λ w h. ground (arith, ok.seen w);
  }

  enter-OnPath :
      (v : ℕ) (m : Marks)
      → ((w : ℕ) → m.stack w ≡ true → Walk wait_for n w v)
      → OnPath v (enter v m)
  unfolding enter
  enter-OnPath v m path w h = elim (ℕ_discrete w v) [
    | yes p ↦ inl p
    | no p ↦ inr (path w (ground arith))
  ]

  leave-After :
      (v : ℕ) (m m' : Marks)
      → Marked m
      → m.visited v ≡ false
      → Ends wait_for n v
      → After (enter v m) m'
      → After m (leave v m')
  unfolding enter leave
  leave-After v m m' ok new ends a = record {
    marked = record {
      done = λ w h h'. elim (ℕ_discrete w v) [
        | yes p ↦ rw p ends
        | no p ↦ a.marked.done w h (ground arith)
      ];
      seen = λ w h. ground (arith, a.marked.seen w);
    };
    same = λ w. ground (arith, a.same w, ok.seen w);
    grows = λ w h. ground (arith, a.grows w);
  }

  pub visits : (fuel : ℕ) → Visits (detect_cycle_util wait_for n fuel) fuel
  unfolding detect_cycle_util
  visits zero v m lt ok new path room = absurd (omega (arith, unvisited_mark m.visited v n lt new))
  visits (suc fuel) v m lt ok new path room = finish _ (
      scan-Outcome (detect_cycle_util wait_for n fuel) fuel (visits fuel) v n 0 (enter v m)
        (omega arith) (enter-Marked v m ok) (enter-OnPath v m path)
        (unfold enter in omega (arith, unvisited_mark m.visited v n lt new)) λ x lt'. elim lt' [ ])
    where
      finish :
          (r : Answer)
          → Outcome ((x : ℕ) → Edge wait_for n v x → Ends wait_for n x) (enter v m) r
          → Outcome (Ends wait_for n v) m (elim r [
            | none ↦ none
            | some (found, m') ↦ some (found, if found then m' else leave v m')
          ])
      finish r (cycle c) = cycle c
      finish r (clean {m'} p a) =
          let ends = Acc.intro v λ u edge. p u edge in clean ends (leave-After v m m' ok new ends a)
