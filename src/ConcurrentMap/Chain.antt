-- ===== src/ConcurrentMap/Chain.antt =====
-- COCURRENTHASHMAP.c: the chain of one bucket, whose keys are distinct.
use leetcode.Base.{
  ◌≡◌, true, none, some, [], ◌∷◌, arith, CString, str_eq, str_eq_comm, str_eq_trans, str_eq_iff, ap,
  if◌then◌else◌,
}
use leetcode.ConcurrentMap.{Chain, chain_get, chain_set, chain_remove}

module _ {ℓ} {V : Type ℓ} where
  -- No node of the chain has the key of a node before it.
  abbrev pub Distinct : Chain V → Type ℓ
  Distinct [] = Unit
  Distinct ((k, v) ∷ b) = (chain_get k b ≡ none) × Distinct b

  -- Keys that strcmp holds equal are found at the same node.
  get_cong : (i j : CString) (b : Chain V) → str_eq i j ≡ true → chain_get i b ≡ chain_get j b
  get_cong i j b e = ap (λ k. chain_get k b) ((str_eq_iff i j).0 e)

  pub get-set :
      (j k : CString) (v : V) (b : Chain V)
      → chain_get j (chain_set k v b) ≡ (
          if str_eq k j
          then elim (chain_get k b) [ none ↦ none | some w ↦ some v ]
          else chain_get j b)
  unfolding chain_get chain_set
  get-set j k v [] = ground arith
  get-set j k v ((i, w) ∷ b) = ground (
    arith,
    get-set j k v b,
    str_eq_trans i k j,
    str_eq_trans k j i,
    str_eq_comm k i,
    str_eq_comm j i,
  )

  pub get-remove :
      (j k : CString) (b : Chain V)
      → Distinct b
      → chain_get j (chain_remove k b) ≡ (if str_eq k j then none else chain_get j b)
  unfolding chain_get chain_remove
  get-remove j k [] d = ground arith
  get-remove j k ((i, w) ∷ b) d = ground (
    arith,
    get-remove j k b,
    str_eq_trans i k j,
    str_eq_trans k j i,
    str_eq_comm k i,
    str_eq_comm j i,
    get_cong i j b,
  )

  pub set-Distinct : (k : CString) (v : V) (b : Chain V) → Distinct b → Distinct (chain_set k v b)
  unfolding chain_set
  set-Distinct k v [] d = tt
  set-Distinct k v ((i, w) ∷ b) d =
      ground (arith, set-Distinct k v b, get-set i k v b, str_eq_comm i k)

  pub remove-Distinct : (k : CString) (b : Chain V) → Distinct b → Distinct (chain_remove k b)
  unfolding chain_remove
  remove-Distinct k [] d = tt
  remove-Distinct k ((i, w) ∷ b) d =
      ground (arith, remove-Distinct k b, get-remove i k b, str_eq_comm i k)
