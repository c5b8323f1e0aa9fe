-- ===== src/ConcurrentMap.antt =====
-- COCURRENTHASHMAP.c: a hash map with a chain and a lock for each bucket. NULL is `none`, and values
-- are not NULL. Each call holds the lock of its only bucket from its first access to its last, so
-- a run of many threads is a sequence of calls in the order of their locks. malloc does not fail.
pub mod Chain
pub mod Dictionary
pub mod Destroy
pub mod Main
pub mod Freed
mod Tests
use leetcode.Base.{
  ℕ, zero, suc, Bool, ◌++◌, ◌+◌, ◌*◌, ◌%◌, ◌^◌, Option, none, some, List, [], ◌∷◌, CString, str_eq,
  if◌then◌else◌, get_or, set, replicate,
}

-- hash_str, from a hash on: `hash << 5` is a product with 32, in 64 bits.
unfoldable pub hash_from : ℕ → CString → ℕ
hash_from hash [] = hash
hash_from hash (c ∷ s) = hash_from ((hash * 2 ^ 5 % 2 ^ 64 + hash + c) % 2 ^ 64) s

unfoldable pub hash_str : CString → ℕ
unfolding hash_from
hash_str s = hash_from 5381 s

-- The list that starts at `head` of a bucket.
abbrev pub Chain {ℓ} : Type ℓ → Type ℓ
Chain V = List (CString × V)

pub record ConcurrentHashMap {ℓ} (V : Type ℓ) : Type ℓ where
  pub nbuckets : ℕ
  pub buckets : List (Chain V)

module _ {ℓ} {V : Type ℓ} where
  unfoldable pub chain_get : CString → Chain V → Option V
  chain_get k [] = none
  chain_get k ((j, v) ∷ b) = if str_eq j k then some v else chain_get k b

  -- The first node with the key gets the value.
  unfoldable pub chain_set : CString → V → Chain V → Chain V
  chain_set k v [] = []
  chain_set k v ((j, w) ∷ b) = if str_eq j k then (j, v) ∷ b else (j, w) ∷ chain_set k v b

  -- The first node with the key is unlinked.
  unfoldable pub chain_remove : CString → Chain V → Chain V
  chain_remove k [] = []
  chain_remove k ((j, w) ∷ b) = if str_eq j k then b else (j, w) ∷ chain_remove k b

  unfoldable pub map_create : ℕ → ConcurrentHashMap V
  map_create n = record { nbuckets = n; buckets = replicate n [] }

  unfoldable pub slot : ConcurrentHashMap V → CString → ℕ
  slot m k = hash_str k % m.nbuckets

  unfoldable pub bucket : ConcurrentHashMap V → CString → Chain V
  bucket m k = get_or m.buckets (slot m k) []

  unfoldable pub with_bucket : ConcurrentHashMap V → CString → Chain V → ConcurrentHashMap V
  with_bucket m k b = record m { buckets = set m.buckets (slot m k) b }

  unfoldable pub map_insert : ConcurrentHashMap V → CString → V → Option V × ConcurrentHashMap V
  map_insert m k v = elim (chain_get k (bucket m k)) [
    | some old ↦ (some old, with_bucket m k (chain_set k v (bucket m k)))
    | none ↦ (none, with_bucket m k ((k, v) ∷ bucket m k))
  ]

  unfoldable pub map_get : ConcurrentHashMap V → CString → Option V
  map_get m k = chain_get k (bucket m k)

  unfoldable pub map_remove : ConcurrentHashMap V → CString → Option V × ConcurrentHashMap V
  map_remove m k = elim (chain_get k (bucket m k)) [
    | some val ↦ (some val, with_bucket m k (chain_remove k (bucket m k)))
    | none ↦ (none, m)
  ]

  -- The values of a chain, to which map_destroy applies free_val if it is given.
  unfoldable pub destroy_chain : (free_val : Bool) → Chain V → List V
  destroy_chain free_val [] = []
  destroy_chain free_val ((k, v) ∷ b) =
      let rest = destroy_chain free_val b in if free_val then v ∷ rest else rest

  unfoldable pub destroy_from : (free_val : Bool) → List (Chain V) → (rounds i : ℕ) → List V
  unfolding destroy_chain
  destroy_from free_val bs zero i = []
  destroy_from free_val bs (suc rounds) i =
      destroy_chain free_val (get_or bs i []) ++ destroy_from free_val bs rounds (i + 1)

  -- The values that are freed, in order.
  unfoldable pub map_destroy : ConcurrentHashMap V → (free_val : Bool) → List V
  unfolding destroy_from
  map_destroy m free_val = destroy_from free_val m.buckets m.nbuckets 0
