-- ===== src/SortedArray.antt =====
-- 1649.c: the cost of building a sorted array, by a Fenwick tree. The global array is a function of
-- the index; the instructions are not negative, and the counts do not overflow.
pub mod LowBit
pub mod Fenwick
pub mod Cost
mod Tests
use Prim.Native.Nat.{bit_and}
use leetcode.Base.{
  ℕ, zero, suc, ◌+◌, ◌-◌, ◌%◌, true, false, Option, none, some, List, [], ◌∷◌, ltb, leb, ◌==◌,
  if◌then◌else◌,
}
use leetcode.Base.Fallible.{◌>>=◌}

abbrev pub modulus : ℕ
modulus = 1_000_000_007

abbrev pub max_val : ℕ
max_val = 100_000

-- index & -index, on 32 bits.
unfoldable pub low_bit : ℕ → ℕ
low_bit index = bit_and index (4_294_967_296 - index)

-- bit[index] += val
unfoldable pub add_at : (ℕ → ℕ) → (index val : ℕ) → ℕ → ℕ
add_at bit index val i = if i == index then bit i + val else bit i

unfoldable pub update_loop : (fuel : ℕ) → (ℕ → ℕ) → (index val : ℕ) → Option (ℕ → ℕ)
unfolding add_at low_bit
update_loop zero bit index val = none
update_loop (suc fuel) bit index val = elim (leb index max_val) [
  | true ↦ update_loop fuel (add_at bit index val) (index + low_bit index) val
  | false ↦ some bit
]

-- Every round raises an index that is not 0.
unfoldable pub update : (ℕ → ℕ) → (index val : ℕ) → Option (ℕ → ℕ)
unfolding update_loop
update bit index val = update_loop (max_val + 1) bit index val

unfoldable pub query_loop : (fuel : ℕ) → (ℕ → ℕ) → (index res : ℕ) → Option ℕ
unfolding low_bit
query_loop zero bit index res = none
query_loop (suc fuel) bit index res = elim (ltb 0 index) [
  | true ↦ query_loop fuel bit (index - low_bit index) (res + bit index)
  | false ↦ some res
]

-- Every round lowers the index.
unfoldable pub query : (ℕ → ℕ) → (index : ℕ) → Option ℕ
unfolding query_loop
query bit index = query_loop (index + 1) bit index 0

-- The loop over the instructions, from number i on.
unfoldable pub instruct : (ℕ → ℕ) → (i cost : ℕ) → List ℕ → Option ℕ
unfolding query update
instruct bit i cost [] = some cost
instruct bit i cost (x ∷ instructions) = do
  less ← query bit (x - 1)
  not_greater ← query bit x
  bit ← update bit x 1
  let greater = i - not_greater
  instruct bit (i + 1) ((cost + (if ltb less greater then less else greater)) % modulus)
      instructions

unfoldable pub create_sorted_array : List ℕ → Option ℕ
unfolding instruct
create_sorted_array instructions = instruct (λ i. 0) 0 0 instructions
