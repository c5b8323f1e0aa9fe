-- ===== src/Allocator.antt =====
-- 2502.c: the memory allocator. An `int` of memory is a number, so ids are not negative, and -1 is
-- `none`. calloc succeeds. The loops recur on the rounds that are left.
pub mod FirstFit
pub mod Release
mod Tests
use leetcode.Base.{
  ℕ, zero, suc, ◌+◌, ◌-◌, Option, none, some, List, ◌==◌, if◌then◌else◌, get_or, set, replicate,
}

pub record Allocator : Type 0 where
  pub memory : List ℕ
  pub size : ℕ

unfoldable pub allocator_create : ℕ → Allocator
allocator_create n = record { memory = replicate n 0; size = n }

-- The first loop of allocatorAllocate, from the index `i` on: the start of the block.
unfoldable pub find_block : List ℕ → (size rounds i count : ℕ) → Option ℕ
find_block mem size zero i count = none
find_block mem size (suc rounds) i count =
    let count' = if get_or mem i 0 == 0 then count + 1 else 0 in
    let rest = find_block mem size rounds (i + 1) count' in
    if count' == size then some (i + 1 - size) else rest

-- The loop that writes the block.
unfoldable pub fill : List ℕ → (m_id rounds j : ℕ) → List ℕ
fill mem m_id zero j = mem
fill mem m_id (suc rounds) j = fill (set mem j m_id) m_id rounds (j + 1)

unfoldable pub allocator_allocate : Allocator → (size m_id : ℕ) → Option ℕ × Allocator
allocator_allocate obj size m_id = elim (find_block obj.memory size obj.size 0 0) [
  | none ↦ (none, obj)
  | some start ↦ (some start, record obj { memory = fill obj.memory m_id size start })
]

-- The loop of allocatorFreeMemory.
unfoldable pub free_cells : List ℕ → (m_id rounds i freed : ℕ) → ℕ × List ℕ
free_cells mem m_id zero i freed = (freed, mem)
free_cells mem m_id (suc rounds) i freed =
    let hit = get_or mem i 0 == m_id in
    free_cells (if hit then set mem i 0 else mem) m_id rounds (i + 1)
      (if hit then freed + 1 else freed)

unfoldable pub allocator_free_memory : Allocator → ℕ → ℕ × Allocator
allocator_free_memory obj m_id =
    let (freed, mem) = free_cells obj.memory m_id obj.size 0 0 in
    (freed, record obj { memory = mem })
