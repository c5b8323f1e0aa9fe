-- ===== src/Allocator/Release.antt =====
-- 2502.c: allocatorFreeMemory clears the cells of one id, and undoes an allocation.
use leetcode.Base.{
  ℕ, zero, suc, ◌+◌, ◌-◌, ◌≤◌, ◌<◌, ◌≡◌, ◌≢◌, refl, Option, some, List, ◌&&◌, ◌==◌, leb, ltb,
  if◌then◌else◌, get_or, set, length, length-set, get_or-set_self, get_or-set_ne, arith, ◌∙◌,
  list_ext, get_or-out, get_or-All, All, ap, sym,
}
use Prim.Native.Nat.{min}
use native.Mathlib.Numerals.{add-one}
use leetcode.Allocator.{Allocator, free_cells, allocator_allocate, allocator_free_memory}
use leetcode.Allocator.FirstFit.{IsSized, Allocated, taken, refused, allocate-Allocated}

-- How many of the first `n` cells hold an id.
pub count_id : List ℕ → (m_id n : ℕ) → ℕ
count_id mem m_id zero = 0
count_id mem m_id (suc n) = (if get_or mem n 0 == m_id then 1 else 0) + count_id mem m_id n

count_step :
    (old mem : List ℕ) (m_id i freed : ℕ)
    → get_or mem i 0 ≡ get_or old i 0
    → freed ≡ count_id old m_id i
    → (if get_or mem i 0 == m_id then freed + 1 else freed) ≡ count_id old m_id (i + 1)
unfolding count_id
count_step old mem m_id i freed e c = rw add-one (ground arith)

-- `mem` is what the loop has made of `old` before the index `i`.
free_cells_lem :
    (old mem : List ℕ) (m_id rounds i freed : ℕ)
    → i + rounds ≤ length mem
    → length mem ≡ length old
    → ((k : ℕ) → i ≤ k → get_or mem k 0 ≡ get_or old k 0)
    → ((k : ℕ) → k < i → get_or mem k 0 ≡ (if get_or old k 0 == m_id then 0 else get_or old k 0))
    → freed ≡ count_id old m_id i
    → let r = free_cells mem m_id rounds i freed in
      (r.0 ≡ count_id old m_id (i + rounds))
      × (length r.1 ≡ length old)
      × ((k : ℕ)
          → get_or r.1 k 0
            ≡ (if ltb k (i + rounds) && get_or old k 0 == m_id then 0 else get_or old k 0))
unfolding free_cells
free_cells_lem old mem m_id zero i freed h len later before c =
    (c ∙ ap (count_id old m_id) (omega arith), len, λ k. ground (arith, later k, before k))
free_cells_lem old mem m_id (suc rounds) i freed h len later before c =
    let e : i + suc rounds ≡ i + 1 + rounds = omega arith in
    rw e (
      free_cells_lem old (if get_or mem i 0 == m_id then set mem i 0 else mem) m_id rounds (i + 1)
        (if get_or mem i 0 == m_id then freed + 1 else freed) (ground (arith, length-set mem i 0))
        (ground (arith, length-set mem i 0))
        (λ k lt. ground (arith, later k, get_or-set_ne mem i k 0 0))
        (λ k lt.
          ground (
            arith,
            later i,
            later k,
            before k,
            get_or-set_self mem k 0 0,
            get_or-set_ne mem i k 0 0,
          ))
        (count_step old mem m_id i freed (later i (omega arith)) c))

-- If the memory has as many cells as its size says, allocatorFreeMemory sets the cells of the id to
-- 0, leaves the others and the size, and returns how many cells held the id.
pub free_memory_lem :
    (obj : Allocator) (m_id : ℕ)
    → IsSized obj
    → let (freed, new) = allocator_free_memory obj m_id in
      (freed ≡ count_id obj.memory m_id obj.size)
      × (new.size ≡ obj.size)
      × IsSized new
      × ((k : ℕ)
          → get_or new.memory k 0
            ≡ (if get_or obj.memory k 0 == m_id then 0 else get_or obj.memory k 0))
unfolding allocator_free_memory count_id
free_memory_lem obj m_id sized =
    let (freed, len, cells) =
      free_cells_lem obj.memory obj.memory m_id obj.size 0 0 (omega arith) refl (λ k h. refl)
        (λ k h. absurd (omega arith)) count_id_zero in
    (
      freed ∙ ap (count_id obj.memory m_id) (omega arith),
      refl,
      sized ∙ sym len,
      λ k. ground (arith, cells k, get_or-out obj.memory k 0),
    )
  where
    count_id_zero : 0 ≡ count_id obj.memory m_id 0
    count_id_zero = refl

-- Where only the cells of a block hold the id.
count_id-block :
    (mem : List ℕ) (m_id start size n : ℕ)
    → ((k : ℕ) → (get_or mem k 0 == m_id) ≡ (leb start k && ltb k (start + size)))
    → count_id mem m_id n ≡ min n (start + size) - start
unfolding count_id
count_id-block mem m_id start size zero h = omega arith
count_id-block mem m_id start size (suc n) h =
    ground (arith, h n, count_id-block mem m_id start size n h)

restored :
    {size : ℕ} {obj : Allocator} (r : ℕ × Allocator)
    → r.0 ≡ size
    → r.1.size ≡ obj.size
    → r.1.memory ≡ obj.memory
    → r ≡ (size, obj)
restored r e f g = ground arith

-- If the memory has as many cells as its size says, freeing an id other than 0 that no cell held
-- gives back the cells that were just allocated to it, at least one: the memory is as before, and
-- the number returned is the size of the block.
pub free-allocate :
    (obj new : Allocator) (size m_id start : ℕ)
    → IsSized obj
    → 0 < size
    → m_id ≢ 0
    → All (λ c. c ≢ m_id) obj.memory
    → allocator_allocate obj size m_id ≡ (some start, new)
    → allocator_free_memory new m_id ≡ (size, obj)
free-allocate obj new size m_id start sized some_cell ne unused e =
    undo (allocate-Allocated obj size m_id sized some_cell) e
  where
    absent : (k : ℕ) → get_or obj.memory k 0 ≢ m_id
    absent k = get_or-All (λ c. c ≢ m_id) obj.memory k 0 unused (λ z. ne (sym z))

    undo :
        {r : Option ℕ × Allocator}
        → Allocated obj size m_id r
        → r ≡ (some start, new)
        → allocator_free_memory new m_id ≡ (size, obj)
    undo (refused h) eq = cc
    undo (taken s n fits free first sized' same cells) eq =
        let here : n ≡ new = ap (λ (p : Option ℕ × Allocator). p.1) eq in
        let (freed, size', sized'', cleared) = free_memory_lem n m_id sized' in
        rw (← here) (
          restored (allocator_free_memory n m_id)
            (omega (
              arith,
              freed,
              count_id-block n.memory m_id s size n.size (λ k. ground (arith, cells k, absent k)),
            ))
            (size' ∙ same)
            (list_ext _ _ 0 (sym sized'' ∙ size' ∙ same ∙ sized)
              λ k. ground (arith, cleared k, cells k, absent k, free k)))
