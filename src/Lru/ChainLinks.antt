-- ===== src/Lru/ChainLinks.antt =====
-- 146.c: the links of one chain of the hash table.
use leetcode.Base.{
  ℕ, ◌≡◌, ◌≢◌, refl, ap, subst, true, false, Option, none, some, List, [], ◌∷◌, arith, ◌==◌,
  if◌then◌else◌, inl, inr, Bool-cases, ==_iff,
}
use leetcode.Lru.{Pointer}
use leetcode.Lru.Links.{mem, IsNodup, head_of, before, remove, is_at, before-is_head}
use leetcode.Lru.Recency.{store, store_if}

-- From `start` the links lead through these nodes to NULL.
abbrev pub IsChain : (Pointer → Option Pointer) → Option Pointer → List Pointer → Type 0
IsChain hnext start [] = start ≡ none
IsChain hnext start (q ∷ qs) = (start ≡ some q) × IsChain hnext (hnext q) qs

-- The first node with the key.
unfoldable pub first : (Pointer → ℕ) → ℕ → List Pointer → Option Pointer
first key k [] = none
first key k (q ∷ qs) = if key q == k then some q else first key k qs

pub first-some :
    (key : Pointer → ℕ) (k : ℕ) (qs : List Pointer) (p : Pointer)
    → first key k qs ≡ some p
    → (mem p qs ≡ true) × (key p ≡ k)
unfolding first
first-some key k [] p h = cc
first-some key k (q ∷ qs) p h = ground (arith, first-some key k qs p)

pub first-none :
    (key : Pointer → ℕ) (k : ℕ) (qs : List Pointer) (p : Pointer)
    → first key k qs ≡ none
    → mem p qs ≡ true
    → key p ≢ k
unfolding first
first-none key k [] p h m = cc
first-none key k (q ∷ qs) p h m = ground (arith, first-none key k qs p)

-- A place outside of a list is at none of its nodes.
outside :
    (o : Option Pointer) (q : Pointer) (qs : List Pointer)
    → ((p : Pointer) → o ≡ some p → mem p qs ≡ false)
    → mem q qs ≡ true
    → is_at o q ≡ false
outside none q qs h m = refl
outside (some p) q qs h m = elim (Bool-cases (p == q)) [
  | inl e ↦ absurd (ground (arith, h q (ap some ((==_iff p q).0 e))))
  | inr e ↦ e
]

pub IsChain-head :
    (hnext : Pointer → Option Pointer) (start : Option Pointer) (qs : List Pointer)
    → IsChain hnext start qs
    → start ≡ head_of qs
IsChain-head hnext start [] h = h
IsChain-head hnext start (q ∷ qs) h = h.0

pub IsChain-store :
    (hnext : Pointer → Option Pointer) (o v start : Option Pointer) (qs : List Pointer)
    → IsChain hnext start qs
    → ((p : Pointer) → o ≡ some p → mem p qs ≡ false)
    → IsChain (store hnext o v) start qs
IsChain-store hnext o v start [] h n = h
IsChain-store hnext o v start (q ∷ qs) h n =
    let kept : store hnext o v q ≡ hnext q =
      ground (arith, store_if hnext o v q, outside o q (q ∷ qs) n) in
    (
      h.0,
      rw kept (IsChain-store hnext o v (hnext q) qs h.1 (λ (p : Pointer) e. ground (arith, n p e))),
    )

-- The chain without `t`, whose predecessor, or the place in front of the chain, points past it.
pub IsChain-remove :
    (hnext : Pointer → Option Pointer) (start b : Option Pointer) (t : Pointer) (qs : List Pointer)
    → IsChain hnext start qs
    → IsNodup qs
    → mem t qs ≡ true
    → ((p : Pointer) → b ≡ some p → mem p qs ≡ false)
    → IsChain
        (store hnext (before b t qs) (hnext t))
        (if is_at start t then hnext t else start)
        (remove t qs)
unfolding remove
IsChain-remove hnext start b t [] h n m out = cc
IsChain-remove hnext start b t (q ∷ qs) h n m out = elim (Bool-cases (q == t)) [
  | inl e ↦
      let same : q ≡ t = (==_iff q t).0 e in
      let rest : IsChain hnext (hnext t) qs = subst (λ x. IsChain hnext (hnext x) qs) same h.1 in
      rw (h.0, e)
        (IsChain-store hnext b (hnext t) (hnext t) qs rest (λ p f. ground (arith, out p f)))
  | inr e ↦
      let slot : store hnext (before (some q) t qs) (hnext t) q
          ≡ (if is_at (hnext q) t then hnext t else hnext q) =
        ground (
          arith,
          store_if hnext (before (some q) t qs) (hnext t) q,
          before-is_head t q qs n.0,
          IsChain-head hnext (hnext q) qs h.1,
        ) in
      let rest =
        IsChain-remove hnext (hnext q) (some q) t qs h.1 n.1 (ground arith)
          (λ p f. ground (arith, n.0)) in
      rw (h.0, e) (refl, rw slot rest)
]
