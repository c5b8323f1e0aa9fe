-- ===== src/ConcurrentMap/Dictionary.antt =====
-- COCURRENTHASHMAP.c: the map is a dictionary, whatever the hash function and the number of buckets.
use leetcode.Base.{
  ℕ, ◌<◌, ◌≡◌, refl, sym, ap, ◌∙◌, true, inl, inr, Option, none, some, List, [], ◌∷◌, arith, All,
  CString, str_eq, str_eq_iff, if◌then◌else◌, ◌==◌, get_or, length, length-set, length-replicate,
  replicate, get_or-set_self, get_or-set_ne, get_or-All, set-All, replicate-All, Option-cases,
}
use mathlib.Core.Path.{fun_ext}
use leetcode.ConcurrentMap.{
  ConcurrentHashMap, Chain, chain_get, map_create, slot, bucket, with_bucket, map_insert, map_get,
  map_remove,
}
use leetcode.ConcurrentMap.Chain.{Distinct, get-set, get-remove, set-Distinct, remove-Distinct}

-- A value is a `void *`.
module _ {V : Type 0} where
  pub record IsValid (m : ConcurrentHashMap V) : Type 0 where
    pub sized : length m.buckets ≡ m.nbuckets
    pub some_bucket : 0 < m.nbuckets
    pub distinct : All Distinct m.buckets

  pub create-IsValid : (n : ℕ) → 0 < n → IsValid (map_create n)
  unfolding map_create
  create-IsValid n h = record {
    sized = length-replicate n [];
    some_bucket = h;
    distinct = replicate-All Distinct n [] tt;
  }

  pub get-create : (n : ℕ) (k : CString) → map_get (map_create {V = V} n) k ≡ none
  unfolding map_get bucket chain_get map_create
  get-create n k =
      let b : List (Chain V) = replicate n [] in
      get_or-All (λ c. chain_get k c ≡ none) b (slot (map_create {V = V} n) k) []
        (replicate-All (λ c. chain_get k c ≡ none) n [] refl) refl

  bucket-Distinct : (m : ConcurrentHashMap V) (k : CString) → IsValid m → Distinct (bucket m k)
  unfolding bucket
  bucket-Distinct m k v = get_or-All Distinct m.buckets (slot m k) [] v.distinct tt

  with_bucket-IsValid :
      (m : ConcurrentHashMap V) (k : CString) (b : Chain V)
      → IsValid m
      → Distinct b
      → IsValid (with_bucket m k b)
  unfolding with_bucket
  with_bucket-IsValid m k b v d = record {
    sized = length-set m.buckets (slot m k) b ∙ v.sized;
    some_bucket = v.some_bucket;
    distinct = set-All Distinct m.buckets (slot m k) b v.distinct d;
  }

  get-with_bucket :
      (m : ConcurrentHashMap V) (k j : CString) (b : Chain V)
      → IsValid m
      → map_get (with_bucket m k b) j
        ≡ (if slot m k == slot m j then chain_get j b else map_get m j)
  unfolding map_get bucket with_bucket slot
  get-with_bucket m k j b v =
      let inside : slot m k < length m.buckets = rw v.sized (omega (arith, v.some_bucket)) in
      ground (
        arith,
        get_or-set_self m.buckets (slot m k) b [],
        get_or-set_ne m.buckets (slot m k) (slot m j) b [],
      )

  same_slot : (m : ConcurrentHashMap V) (k j : CString) → str_eq k j ≡ true → slot m k ≡ slot m j
  same_slot m k j e = ap (slot m) ((str_eq_iff k j).0 e)

  same_bucket :
      (m : ConcurrentHashMap V) (k j : CString) → slot m k ≡ slot m j → bucket m k ≡ bucket m j
  unfolding bucket
  same_bucket m k j e = ap (λ i. get_or m.buckets i []) e

  -- A new chain that answers `x` for the key, and the rest as before.
  replaced :
      (m : ConcurrentHashMap V) (k j : CString) (b : Chain V) (x : Option V)
      → IsValid m
      → chain_get j b ≡ (if str_eq k j then x else chain_get j (bucket m k))
      → map_get (with_bucket m k b) j ≡ (if str_eq k j then x else map_get m j)
  unfolding map_get
  replaced m k j b x v h = ground (
    arith,
    get-with_bucket m k j b v,
    h,
    same_slot m k j,
    λ (e : slot m k ≡ slot m j). ap (chain_get j) (same_bucket m k j e),
  )

  get_of_bucket : (m : ConcurrentHashMap V) (k : CString) → map_get m k ≡ chain_get k (bucket m k)
  unfolding map_get
  get_of_bucket m k = refl

  -- On a valid map, map_insert returns the value that the key had, if any, and then the key has the
  -- new value. Every other key keeps its own, also in the same bucket, and the map stays valid.
  pub insert_lem :
      (m : ConcurrentHashMap V) (k : CString) (v : V)
      → IsValid m
      → ((map_insert m k v).0 ≡ map_get m k)
        × IsValid (map_insert m k v).1
        × ((j : CString)
            → map_get (map_insert m k v).1 j ≡ (if str_eq k j then some v else map_get m j))
  unfolding map_insert
  insert_lem m k v ok = elim (Option-cases (chain_get k (bucket m k))) [
    | inl e ↦
        rw (e, map_insert)
          (
            sym (get_of_bucket m k ∙ e),
            with_bucket-IsValid m k _ ok (e, bucket-Distinct m k ok),
            λ j. replaced m k j _ (some v) ok (unfold chain_get in refl),
          )
    | inr (old, e) ↦
        rw (e, map_insert)
          (
            sym (get_of_bucket m k ∙ e),
            with_bucket-IsValid m k _ ok (set-Distinct k v _ (bucket-Distinct m k ok)),
            λ j. replaced m k j _ (some v) ok (get-set j k v (bucket m k) ∙ rw e),
          )
  ]

  -- On a valid map, map_remove returns the value that the key had, if any, and then the key has
  -- none. Every other key keeps its own, and the map stays valid.
  pub remove_lem :
      (m : ConcurrentHashMap V) (k : CString)
      → IsValid m
      → ((map_remove m k).0 ≡ map_get m k)
        × IsValid (map_remove m k).1
        × ((j : CString)
            → map_get (map_remove m k).1 j ≡ (if str_eq k j then none else map_get m j))
  unfolding map_remove
  remove_lem m k ok = elim (Option-cases (chain_get k (bucket m k))) [
    | inl e ↦
        rw (e, map_remove)
          (
            sym (get_of_bucket m k ∙ e),
            ok,
            λ j. ground (
              arith,
              λ (h : str_eq k j ≡ true).
                  sym (ap (map_get m) ((str_eq_iff k j).0 h)) ∙ get_of_bucket m k ∙ e,
            ),
          )
    | inr (old, e) ↦
        rw (e, map_remove)
          (
            sym (get_of_bucket m k ∙ e),
            with_bucket-IsValid m k _ ok (remove-Distinct k _ (bucket-Distinct m k ok)),
            λ j. replaced m k j _ none ok (get-remove j k (bucket m k) (bucket-Distinct m k ok)),
          )
  ]

pub data Call (V : Type 0) : Type 0 where
  insert : CString → V → Call V
  get : CString → Call V
  remove : CString → Call V

module _ {V : Type 0} where
  -- A call on the map: its result and the map after it.
  unfoldable pub step : ConcurrentHashMap V → Call V → Option V × ConcurrentHashMap V
  step m (insert k v) = map_insert m k v
  step m (get k) = (map_get m k, m)
  step m (remove k) = map_remove m k

  -- The same on a dictionary, which forgets buckets, chains and hashes.
  unfoldable pub dictionary_step : (CString → Option V) → Call V → Option V × (CString → Option V)
  dictionary_step f (insert k v) = (f k, λ j. if str_eq k j then some v else f j)
  dictionary_step f (get k) = (f k, f)
  dictionary_step f (remove k) = (f k, λ j. if str_eq k j then none else f j)

  -- The results of a sequence of calls.
  unfoldable pub results : ConcurrentHashMap V → List (Call V) → List (Option V)
  results m [] = []
  results m (c ∷ cs) = (step m c).0 ∷ results (step m c).1 cs

  unfoldable pub dictionary_results : (CString → Option V) → List (Call V) → List (Option V)
  dictionary_results f [] = []
  dictionary_results f (c ∷ cs) =
      (dictionary_step f c).0 ∷ dictionary_results (dictionary_step f c).1 cs

  step_lem :
      (m : ConcurrentHashMap V) (c : Call V)
      → IsValid m
      → IsValid (step m c).1
        × ((step m c).0 ≡ (dictionary_step (map_get m) c).0)
        × (map_get (step m c).1 ≡ (dictionary_step (map_get m) c).1)
  unfolding step dictionary_step
  step_lem m (insert k v) ok = let (r, ok', g) = insert_lem m k v ok in (ok', r, fun_ext g)
  step_lem m (get k) ok = (ok, refl, refl)
  step_lem m (remove k) ok = let (r, ok', g) = remove_lem m k ok in (ok', r, fun_ext g)

  -- On a valid map (map_create with at least one bucket makes one), every sequence of calls, of
  -- whatever threads, in the order in which they take their locks, has the results that it has on a
  -- dictionary that starts with what the map holds.
  pub results-dictionary :
      (m : ConcurrentHashMap V) (cs : List (Call V))
      → IsValid m
      → results m cs ≡ dictionary_results (map_get m) cs
  unfolding results dictionary_results
  results-dictionary m [] ok = refl
  results-dictionary m (c ∷ cs) ok =
      let (ok', r, g) = step_lem m c ok in cc (r, g, results-dictionary (step m c).1 cs ok')
