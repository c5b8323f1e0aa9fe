-- ===== src/Lru/Chains.antt =====
-- 146.c: getNode, putNode and removeFromMap on the chains of the hash table.
use leetcode.Base.{
  ℕ, zero, suc, ◌+◌, ◌≤◌, ◌<◌, ◌≡◌, refl, sym, ap, ◌∙◌, true, false, Option, none, some, List, [],
  ◌∷◌, arith, ◌==◌, if◌then◌else◌, update, inl, inr, Bool-cases, length, ==_iff, update-cases,
}
use leetcode.Lru.{
  Pointer, Cache, deref, hash, find, get_node, unchain, remove_loop, remove_from_map,
}
use leetcode.Lru.Links.{
  mem, IsNodup, head_of, before, remove, is_at, mem-remove, remove-IsNodup, before-mem,
  length-remove,
}
use leetcode.Lru.Recency.{store, or_set, before-is_some}
use leetcode.Lru.ChainLinks.{
  IsChain, first, first-some, IsChain-head, IsChain-store, IsChain-remove,
}

-- The chains: `chain i` are the nodes of the bucket `i`.
pub record IsHashed (c : Cache) (ps : List Pointer) (chain : ℕ → List Pointer) : Type 0 where
  pub chains : (i : ℕ) → IsChain c.hnext (c.table i) (chain i)
  pub nodups : (i : ℕ) → IsNodup (chain i)
  pub homes : (i : ℕ) (p : Pointer) → mem p (chain i) ≡ true → hash (c.key p) ≡ i
  pub same : (p : Pointer) → mem p (chain (hash (c.key p))) ≡ mem p ps
  pub short : (i : ℕ) → length (chain i) ≤ c.made

find-first :
    (fuel : ℕ) (c : Cache) (k : ℕ) (start : Option Pointer) (qs : List Pointer)
    → IsChain c.hnext start qs
    → length qs < fuel
    → ((p : Pointer) → mem p qs ≡ true → c.allocated p ≡ true)
    → find fuel c k start ≡ some (first c.key k qs)
unfolding find first
find-first zero c k start qs h lt a = absurd (omega arith)
find-first (suc fuel) c k start [] h lt a = rw h refl
find-first (suc fuel) c k start (q ∷ qs) h lt a =
    let rest = find-first fuel c k (c.hnext q) qs h.1 (omega arith) (λ p m. a p (ground arith)) in
    rw (h.0, a q (ground arith), rest) (ground arith)

-- The cache with the link past a node stored: in the node in front of it, or in the table.
unfoldable pub unchained : Cache → (idx : ℕ) → (b : Option Pointer) → (t : Pointer) → Cache
unchained c idx b t = record c {
  hnext = store c.hnext b (c.hnext t);
  table = or_set b (update c.table idx (c.hnext t)) c.table;
}

unchain-store :
    (c : Cache) (idx : ℕ) (b : Option Pointer) (t : Pointer)
    → ((p : Pointer) → b ≡ some p → c.allocated p ≡ true)
    → unchain c idx b t ≡ some (unchained c idx b t)
unfolding unchain deref unchained
unchain-store c idx none t a = refl
unchain-store c idx (some q) t a = rw (a q refl) refl

remove_loop-unchained :
    (fuel : ℕ) (c : Cache) (k idx : ℕ) (b start : Option Pointer) (qs : List Pointer) (t : Pointer)
    → IsChain c.hnext start qs
    → length qs < fuel
    → ((p : Pointer) → mem p qs ≡ true → c.allocated p ≡ true)
    → ((p : Pointer) → b ≡ some p → c.allocated p ≡ true)
    → first c.key k qs ≡ some t
    → remove_loop fuel c k idx b start ≡ some (unchained c idx (before b t qs) t)
unfolding remove_loop first
remove_loop-unchained zero c k idx b start qs t h lt a ab f = absurd (omega arith)
remove_loop-unchained (suc fuel) c k idx b start [] t h lt a ab f = cc
remove_loop-unchained (suc fuel) c k idx b start (q ∷ qs) t h lt a ab f =
    elim (Bool-cases (c.key q == k)) [
      | inl e ↦
          let same : q ≡ t = ground arith in
          let here : (q == t) ≡ true = (==_iff q t).1 same in
          rw (h.0, a q (ground arith), e, here) (rw same (unchain-store c idx b t ab))
      | inr e ↦
          let more : first c.key k qs ≡ some t = ground arith in
          let there : (q == t) ≡ false = ground (arith, first-some c.key k qs t more) in
          rw (h.0, a q (ground arith), e, there)
            (remove_loop-unchained fuel c k idx (some q) (c.hnext q) qs t h.1 (omega arith)
              (λ p m. a p (ground arith)) (λ p g. a p (ground arith)) more)
    ]

-- A node is in front of every one but the first.
before-front_slot :
    (t : Pointer) (qs : List Pointer) (s k : Option Pointer)
    → mem t qs ≡ true
    → or_set (before none t qs) s k ≡ (if is_at (head_of qs) t then s else k)
before-front_slot t [] s k m = cc
before-front_slot t (q ∷ qs) s k m = ground (arith, before-is_some q t qs)

or_set_same : (o k : Option Pointer) → or_set o k k ≡ k
or_set_same none k = refl
or_set_same (some q) k = refl

or_set-apply :
    (o : Option Pointer) (f g : ℕ → Option Pointer) (i : ℕ) → or_set o f g i ≡ or_set o (f i) (g i)
or_set-apply none f g i = refl
or_set-apply (some q) f g i = refl

module _ (c : Cache) (ps : List Pointer) (chain : ℕ → List Pointer) (w : IsHashed c ps chain) where
  module _ (alive : (p : Pointer) → mem p ps ≡ true → c.allocated p ≡ true) where
    chain-allocated : (i : ℕ) (p : Pointer) → mem p (chain i) ≡ true → c.allocated p ≡ true
    chain-allocated i p m = alive p (sym (w.same p) ∙ ap (λ j. mem p (chain j)) (w.homes i p m) ∙ m)

    pub get_node-first : (k : ℕ) → get_node c k ≡ some (first c.key k (chain (hash k)))
    unfolding get_node
    get_node-first k =
        find-first (c.made + 1) c k (c.table (hash k)) (chain (hash k)) (w.chains (hash k))
          (ground (arith, w.short (hash k))) (chain-allocated (hash k))

    pub remove_from_map-unchained :
        (k : ℕ) (t : Pointer)
        → first c.key k (chain (hash k)) ≡ some t
        → remove_from_map c k ≡ some (unchained c (hash k) (before none t (chain (hash k))) t)
    unfolding remove_from_map
    remove_from_map-unchained k t f =
        remove_loop-unchained (c.made + 1) c k (hash k) none (c.table (hash k)) (chain (hash k)) t
          (w.chains (hash k)) (ground (arith, w.short (hash k))) (chain-allocated (hash k))
          (λ p e. cc) f

  pub unchained-IsHashed :
      (t : Pointer)
      → mem t ps ≡ true
      → IsNodup ps
      → IsHashed
          (unchained c (hash (c.key t)) (before none t (chain (hash (c.key t)))) t)
          (remove t ps)
          (update chain (hash (c.key t)) (remove t (chain (hash (c.key t)))))
  unfolding unchained
  unchained-IsHashed t m n =
      let idx = hash (c.key t) in
      let inside : mem t (chain idx) ≡ true = w.same t ∙ m in
      let o = before none t (chain idx) in
      record {
        chains = λ i. elim (Bool-cases (i == idx)) [
          | inl e ↦
              let at : i ≡ idx = (==_iff i idx).0 e in
              let slot : or_set o (update c.table idx (c.hnext t)) c.table i
                  ≡ (if is_at (c.table idx) t then c.hnext t else c.table idx) =
                ground (
                  arith,
                  or_set-apply o (update c.table idx (c.hnext t)) c.table i,
                  e,
                  ap c.table at,
                  before-front_slot t (chain idx) (c.hnext t) (c.table idx) inside,
                  IsChain-head c.hnext (c.table idx) (chain idx) (w.chains idx),
                ) in
              rw (slot, e)
                (IsChain-remove c.hnext (c.table idx) none t (chain idx) (w.chains idx)
                  (w.nodups idx) inside (λ p f. cc))
          | inr e ↦
              let slot : or_set o (update c.table idx (c.hnext t)) c.table i ≡ c.table i = ground (
                arith,
                or_set-apply o (update c.table idx (c.hnext t)) c.table i,
                e,
                or_set_same o (c.table i),
              ) in
              rw (slot, e)
                (IsChain-store c.hnext o (c.hnext t) (c.table i) (chain i) (w.chains i)
                  (λ p f. elsewhere i p e (before-mem none t p (chain idx) f (cc))))
        ];
        nodups = λ i.
            update-cases IsNodup chain idx (remove t (chain idx)) i
              (λ _. remove-IsNodup t (chain idx) (w.nodups idx)) (λ _. w.nodups i);
        homes = λ i p h. elim (Bool-cases (i == idx)) [
          | inl e ↦ ground (arith, e, mem-remove t p (chain idx) (w.nodups idx), w.homes idx p)
          | inr e ↦ w.homes i p (ground arith)
        ];
        same = λ p. elim (Bool-cases (hash (c.key p) == idx)) [
          | inl e ↦ ground (
            arith,
            e,
            (==_iff (hash (c.key p)) idx).0 e,
            w.same p,
            ap (λ j. mem p (chain j)) ((==_iff (hash (c.key p)) idx).0 e),
            mem-remove t p (chain idx) (w.nodups idx),
            mem-remove t p ps n,
          )
          | inr e ↦ ground (arith, e, w.same p, mem-remove t p ps n, other p e)
        ];
        short = λ i.
            update-cases (λ (qs : List Pointer). length qs ≤ c.made) chain idx
              (remove t (chain idx)) i
              (λ _. omega (arith, length-remove t (chain idx) inside, w.short idx))
              (λ _. w.short i);
      }
    where
      elsewhere :
          (i : ℕ) (p : Pointer)
          → (i == hash (c.key t)) ≡ false
          → mem p (chain (hash (c.key t))) ≡ true
          → mem p (chain i) ≡ false
      elsewhere i p e h =
          ground (arith, w.homes i p, w.homes (hash (c.key t)) p h, ==_iff i (hash (c.key t)))

      other : (p : Pointer) → (hash (c.key p) == hash (c.key t)) ≡ false → (p == t) ≡ false
      other p e = ground (arith, ap c.key)
