-- ===== src/ConcurrentMap/Destroy.antt =====
-- COCURRENTHASHMAP.c: which values map_destroy frees after an insert and after a remove.
use leetcode.Base.{
  ℕ, zero, suc, ◌+◌, ◌<◌, ◌≡◌, refl, sym, ap, true, inl, inr, Bool-cases, none, some, List, [], ◌∷◌,
  ◌++◌, arith, CString, str_eq, if◌then◌else◌, ◌==◌, ◌&&◌, leb, ltb, get_or, set, length,
  get_or-set_self, get_or-set_ne, Option-cases, subst, ==_iff,
}
use leetcode.ConcurrentMap.{
  ConcurrentHashMap, Chain, chain_get, chain_remove, slot, bucket, with_bucket, map_insert, map_get,
  map_remove, destroy_chain, destroy_from, map_destroy,
}
use leetcode.ConcurrentMap.Dictionary.{IsValid}

module _ {V : Type 0} (f : V → ℕ) where
  -- The sum of `f` over a list. Lists with the same sums for all `f` have the same elements, each
  -- as often.
  unfoldable pub total : List V → ℕ
  total [] = 0
  total (v ∷ vs) = f v + total vs

  total-append : (xs ys : List V) → total (xs ++ ys) ≡ total xs + total ys
  unfolding total
  total-append [] ys = omega arith
  total-append (x ∷ xs) ys = omega (arith, total-append xs ys)

  chain_remove-total :
      (k : CString) (v : V) (b : Chain V)
      → chain_get k b ≡ some v
      → f v + total (destroy_chain true (chain_remove k b)) ≡ total (destroy_chain true b)
  unfolding chain_get chain_remove total destroy_chain
  chain_remove-total k v [] e = absurd (ground (arith, e))
  chain_remove-total k v ((j, w) ∷ b) e = elim (Bool-cases (str_eq j k)) [
    | inl s ↦
        (let g = ap {B = ℕ} (λ o. elim o [ none ↦ 0 | some z ↦ f z ]) e in ground (arith, s, g))
    | inr s ↦ (let ih = chain_remove-total k v b (ground (arith, s, e)) in ground (arith, s, ih))
  ]

  -- Another chain at index `s`.
  destroy_from-set :
      (bs : List (Chain V)) (n i s : ℕ) (b : Chain V)
      → s < length bs
      → total (destroy_from true (set bs s b) n i)
          + (if leb i s && ltb s (i + n) then total (destroy_chain true (get_or bs s [])) else 0)
        ≡ total (destroy_from true bs n i)
          + (if leb i s && ltb s (i + n) then total (destroy_chain true b) else 0)
  unfolding destroy_from total
  destroy_from-set bs zero i s b h = ground arith
  destroy_from-set bs (suc n) i s b h =
      let ih = destroy_from-set bs n (i + 1) s b h in
      let x =
        total-append (destroy_chain true (get_or (set bs s b) i []))
          (destroy_from true (set bs s b) n (i + 1)) in
      let y = total-append (destroy_chain true (get_or bs i [])) (destroy_from true bs n (i + 1)) in
      elim (Bool-cases (s == i)) [
        | inl e ↦
            (let here = (==_iff s i).0 e in
              let q =
                ap (λ c. total (destroy_chain true c))
                  (subst (λ z. get_or (set bs s b) z [] ≡ b) here (get_or-set_self bs s b [] h)) in
              let r = ap (λ z. total (destroy_chain true (get_or bs z []))) here in
              ground (arith, ih, x, y, q, r, e))
        | inr e ↦
            (let q =
                ap (λ c. total (destroy_chain true c))
                  (get_or-set_ne bs s i b [] (λ z. absurd (ground (arith, e, z)))) in
              ground (arith, ih, x, y, q, e))
      ]

  slot_bound : (m : ConcurrentHashMap V) (k : CString) → IsValid m → slot m k < m.nbuckets
  unfolding slot
  slot_bound m k v = omega (arith, v.some_bucket)

  destroy-with_bucket :
      (m : ConcurrentHashMap V) (k : CString) (b : Chain V)
      → IsValid m
      → total (map_destroy (with_bucket m k b) true) + total (destroy_chain true (bucket m k))
        ≡ total (map_destroy m true) + total (destroy_chain true b)
  unfolding map_destroy with_bucket bucket slot
  destroy-with_bucket m k b v =
      let inside : slot m k < m.nbuckets = slot_bound m k v in
      let e =
        destroy_from-set m.buckets m.nbuckets 0 (slot m k) b
          (subst (λ n. slot m k < n) (sym v.sized) inside) in
      ground (arith, e, inside)

  cons_total :
      (k : CString) (v : V) (b : Chain V)
      → total (destroy_chain true ((k, v) ∷ b)) ≡ f v + total (destroy_chain true b)
  unfolding total destroy_chain
  cons_total k v b = refl

  pub destroy-insert :
      (m : ConcurrentHashMap V) (k : CString) (v : V)
      → IsValid m
      → map_get m k ≡ none
      → total (map_destroy (map_insert m k v).1 true) ≡ f v + total (map_destroy m true)
  unfolding map_insert map_get
  destroy-insert m k v ok e = elim (Option-cases (chain_get k (bucket m k))) [
    | inl g ↦
        (let h = destroy-with_bucket m k ((k, v) ∷ bucket m k) ok in
          let chain_more = cons_total k v (bucket m k) in
          rw (g, map_insert) (omega (arith, h, chain_more)))
    | inr (w, g) ↦ absurd (ground (arith, e, g))
  ]

  pub destroy-remove :
      (m : ConcurrentHashMap V) (k : CString) (v : V)
      → IsValid m
      → map_get m k ≡ some v
      → f v + total (map_destroy (map_remove m k).1 true) ≡ total (map_destroy m true)
  unfolding map_remove map_get
  destroy-remove m k v ok e = elim (Option-cases (chain_get k (bucket m k))) [
    | inl g ↦ absurd (ground (arith, e, g))
    | inr (w, g) ↦
        (let h = destroy-with_bucket m k (chain_remove k (bucket m k)) ok in
          let r = chain_remove-total k v (bucket m k) e in rw (g, map_remove) (omega (arith, h, r)))
  ]
