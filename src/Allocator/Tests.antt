-- ===== src/Allocator/Tests.antt =====
-- 2502.c: the allocator on small memories.
use leetcode.Base.{◌≡◌, refl, some, none, [], ◌∷◌, arith}
use leetcode.Allocator.{Allocator, find_block, fill, allocator_allocate}
use leetcode.Allocator.FirstFit.{Allocated, allocate-Allocated}

abbrev holes : Allocator
holes = record { memory = 1 ∷ 0 ∷ 2 ∷ 0 ∷ 0 ∷ 3 ∷ 0 ∷ []; size = 7 }

abbrev filled : Allocator
filled = record { memory = 1 ∷ 0 ∷ 2 ∷ 4 ∷ 4 ∷ 3 ∷ 0 ∷ []; size = 7 }

allocate_two : allocator_allocate holes 2 4 ≡ (some 3, filled)
unfolding allocator_allocate find_block fill
allocate_two = refl

allocate_three : allocator_allocate holes 3 4 ≡ (none, holes)
unfolding allocator_allocate find_block
allocate_three = refl

-- A request for no cells is answered by the cell behind the first one that is taken.
allocate_none : allocator_allocate holes 0 4 ≡ (some 1, holes)
unfolding allocator_allocate find_block fill
allocate_none = refl

allocate-Allocated_example : Allocated holes 2 4 (allocator_allocate holes 2 4)
allocate-Allocated_example = allocate-Allocated holes 2 4 refl (omega arith)
