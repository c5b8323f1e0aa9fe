-- ===== src/Allocator/FirstFit.antt =====
-- 2502.c: allocatorAllocate takes the leftmost free block, and only that.
use leetcode.Base.{
  ℕ, zero, suc, ◌+◌, ◌-◌, ◌≤◌, ◌<◌, ◌≡◌, ◌≢◌, refl, inl, inr, false, Option, none, some, List, ◌&&◌,
  ◌==◌, leb, ltb, if◌then◌else◌, get_or, set, length, length-set, get_or-set_self, get_or-set_ne,
  arith, Bool-cases, ◌∙◌,
}
use native.Mathlib.Decide.{ℕ_discrete}
use leetcode.Allocator.{Allocator, find_block, fill, allocator_allocate}

-- The cells of a block hold 0.
abbrev pub IsFree : List ℕ → (start size : ℕ) → Type 0
IsFree mem start size = (j : ℕ) → start ≤ j → j < start + size → get_or mem j 0 ≡ 0

-- No block of this size that ends by `i` is free.
abbrev pub NoneBefore : List ℕ → (size i : ℕ) → Type 0
NoneBefore mem size i = (s : ℕ) → s + size ≤ i → ¬ IsFree mem s size

-- The state of the loop: `count` free cells end at `i`, and the cell before them is taken.
record Scanned (mem : List ℕ) (size i count : ℕ) : Type 0 where
  fits : count ≤ i
  short : count < size
  free : IsFree mem (i - count) count
  stop : count < i → get_or mem (i - count - 1) 0 ≢ 0
  none : NoneBefore mem size i

data Found (mem : List ℕ) (size n : ℕ) : Option ℕ → Type 0 where
  block :
      (start : ℕ)
      → start + size ≤ n
      → IsFree mem start size
      → ((s : ℕ) → s < start → ¬ IsFree mem s size)
      → Found mem size n (some start)
  full : NoneBefore mem size n → Found mem size n none

module _ (mem : List ℕ) (size : ℕ) where
  -- One more free cell.
  grow :
      (i count : ℕ)
      → Scanned mem size i count
      → get_or mem i 0 ≡ 0
      → count + 1 ≢ size
      → Scanned mem size (i + 1) (count + 1)
  grow i count v z ne = record {
    fits = omega arith;
    short = omega arith;
    free = λ j lo hi. elim (ℕ_discrete j i) [
      | yes p ↦ rw p z
      | no p ↦ v.free j (omega arith) (omega arith)
    ];
    stop = λ h.
        let e : i + 1 - (count + 1) - 1 ≡ i - count - 1 = omega arith in
        rw e (v.stop (omega arith));
    none = λ s h free. elim (ℕ_discrete (s + size) (i + 1)) [
      | yes p ↦ v.stop (omega arith) (free (i - count - 1) (omega arith) (omega arith))
      | no p ↦ v.none s (omega arith) free
    ];
  }

  restart :
      (i count : ℕ) → Scanned mem size i count → get_or mem i 0 ≢ 0 → Scanned mem size (i + 1) 0
  restart i count v nz = record {
    fits = omega arith;
    short = omega arith;
    free = λ j lo hi. absurd (omega arith);
    stop = λ h. let e : i + 1 - 0 - 1 ≡ i = omega arith in rw e nz;
    none = λ s h free. elim (ℕ_discrete (s + size) (i + 1)) [
      | yes p ↦ nz (free i (omega arith) (omega arith))
      | no p ↦ v.none s (omega arith) free
    ];
  }

  last_cell :
      (n i count rounds : ℕ)
      → i + suc rounds ≡ n
      → Scanned mem size i count
      → get_or mem i 0 ≡ 0
      → count + 1 ≡ size
      → Found mem size n (some (i + 1 - size))
  last_cell n i count rounds e v z fits =
      block (i + 1 - size) (omega arith)
        (λ j lo hi. elim (ℕ_discrete j i) [
          | yes p ↦ rw p z
          | no p ↦ v.free j (omega arith) (omega arith)
        ])
        λ s h. v.none s (omega arith)

  find_block-Found :
      (n rounds i count : ℕ)
      → i + rounds ≡ n
      → Scanned mem size i count
      → Found mem size n (find_block mem size rounds i count)
  unfolding find_block
  find_block-Found n zero i count e v = full λ s h. v.none s (omega arith)
  find_block-Found n (suc rounds) i count e v = elim (Bool-cases (get_or mem i 0 == 0)) [
    | inr taken ↦
        let no : (0 == size) ≡ false = ground arith in
        rw (taken, find_block)
          (rw no
            (find_block-Found n rounds (i + 1) 0 (omega arith) (restart i count v (ground arith))))
    | inl empty ↦
        rw (empty, find_block)
          (elim (Bool-cases (count + 1 == size)) [
            | inl fits ↦ rw fits (last_cell n i count rounds e v (ground arith) (ground arith))
            | inr short ↦ rw short (
                find_block-Found n rounds (i + 1) (count + 1) (omega arith)
                  (grow i count v (ground arith) (ground arith)))
          ])
  ]

-- What the write loop leaves in each cell.
pub get_or-fill :
    (m_id rounds j k : ℕ) (mem : List ℕ)
    → j + rounds ≤ length mem
    → get_or (fill mem m_id rounds j) k 0
      ≡ (if leb j k && ltb k (j + rounds) then m_id else get_or mem k 0)
unfolding fill
get_or-fill m_id zero j k mem h = ground arith
get_or-fill m_id (suc rounds) j k mem h =
    get_or-fill m_id rounds (j + 1) k (set mem j m_id) (omega (arith, length-set mem j m_id))
    ∙ ground (arith, get_or-set_self mem k m_id 0, get_or-set_ne mem j k m_id 0)

pub length-fill : (m_id rounds j : ℕ) (mem : List ℕ) → length (fill mem m_id rounds j) ≡ length mem
unfolding fill
length-fill m_id zero j mem = refl
length-fill m_id (suc rounds) j mem =
    length-fill m_id rounds (j + 1) (set mem j m_id) ∙ length-set mem j m_id

-- An allocator of the size that it was created with.
abbrev pub IsSized : Allocator → Type 0
IsSized obj = obj.size ≡ length obj.memory

pub data Allocated (obj : Allocator) (size m_id : ℕ) : Option ℕ × Allocator → Type 0 where
  taken :
      (start : ℕ) (new : Allocator)
      → start + size ≤ obj.size
      → IsFree obj.memory start size
      → ((s : ℕ) → s < start → ¬ IsFree obj.memory s size)
      → IsSized new
      → new.size ≡ obj.size
      → ((k : ℕ)
          → get_or new.memory k 0
            ≡ (if leb start k && ltb k (start + size) then m_id else get_or obj.memory k 0))
      → Allocated obj size m_id (some start, new)
  refused : NoneBefore obj.memory size obj.size → Allocated obj size m_id (none, obj)

-- If the memory has as many cells as its size says, allocatorAllocate of at least one cell returns
-- the start of the leftmost free block of that size, writes the id to its cells and to no other, or
-- returns -1 when no block of that size is free, and then changes nothing.
pub allocate-Allocated :
    (obj : Allocator) (size m_id : ℕ)
    → IsSized obj
    → 0 < size
    → Allocated obj size m_id (allocator_allocate obj size m_id)
unfolding allocator_allocate
allocate-Allocated obj size m_id sized some_cell = write (
    find_block-Found obj.memory size obj.size obj.size 0 0 (omega arith) (record {
      fits = omega arith;
      short = omega arith;
      free = λ j lo hi. absurd (omega arith);
      stop = λ h. absurd (omega arith);
      none = λ s h. absurd (omega arith);
    }))
  where
    write :
        {r : Option ℕ}
        → Found obj.memory size obj.size r
        → Allocated obj size m_id (elim r [
          | none ↦ (none, obj)
          | some start ↦ (some start, record obj { memory = fill obj.memory m_id size start })
        ])
    write (block start fits free first) =
        taken start _ fits free first (omega (arith, length-fill m_id size start obj.memory)) refl
          λ k. get_or-fill m_id size start k obj.memory (omega arith)
    write (full none_free) = refused none_free
