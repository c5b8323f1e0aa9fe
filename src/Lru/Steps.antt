-- ===== src/Lru/Steps.antt =====
-- 146.c: the invariant of the cache, and what each part of lRUCacheGet and lRUCachePut makes of it.
use leetcode.Base.{
  ℕ, ◌+◌, ◌-◌, ◌≤◌, ◌<◌, ◌≡◌, ◌≢◌, refl, sym, ap, ◌∙◌, true, false, Option, none, some, List, ◌∷◌,
  arith, ◌==◌, update, inl, inr, Option-cases, Bool-cases, length, update-cases,
}
use leetcode.Base.Int.{ℤ}
use leetcode.Lru.{
  Pointer, Cache, hash, deref, create_node, get_node, put_node, touch, evict_tail, add_new,
}
use leetcode.Lru.Links.{mem, IsNodup, remove, before, mem-remove, length-remove}
use leetcode.Lru.Recency.{
  IsLinked, unlinked, linked, remove_node-unlinked, unlinked-IsLinked, add_to_head-linked,
  linked-IsLinked,
}
use leetcode.Lru.Chains.{
  IsHashed, unchained, remove_from_map-unchained, unchained-IsHashed, get_node-first,
}
use leetcode.Lru.ChainLinks.{IsChain, first, first-some, first-none, IsChain-store}
use leetcode.Lru.Entries.{first_unique, first-absent}

-- The nodes `ps` in the order of their use, the last used first, and the chains of the hash table.
pub record IsValid (c : Cache) (ps : List Pointer) (chain : ℕ → List Pointer) : Type 0 where
  pub links : IsLinked c ps
  pub hashed : IsHashed c ps chain
  pub distinct : (p q : Pointer) → mem p ps ≡ true → mem q ps ≡ true → c.key p ≡ c.key q → p ≡ q
  pub old : (p : Pointer) → mem p ps ≡ true → p < c.made
  pub sized : c.size ≡ length ps
  pub room : length ps ≤ c.capacity

module _ {c : Cache} {ps : List Pointer} {chain : ℕ → List Pointer} (w : IsValid c ps chain) where
  in_chain : (p : Pointer) (i : ℕ) → mem p (chain i) ≡ true → mem p ps ≡ true
  in_chain p i m = sym (w.hashed.same p) ∙ ap (λ j. mem p (chain j)) (w.hashed.homes i p m) ∙ m

  -- getNode finds the node that a walk through the whole list finds.
  pub get_node-lem : (k : ℕ) → get_node c k ≡ some (first c.key k ps)
  get_node-lem k =
      get_node-first c ps chain w.hashed w.links.allocated k
      ∙ ap some (elim (Option-cases (first c.key k (chain (hash k)))) [
        | inl e ↦
            e
            ∙ sym (
                first-absent c.key k ps (λ p m f.
                  first-none c.key k (chain (hash k)) p e
                    (ap (λ j. mem p (chain (hash j))) (sym f) ∙ w.hashed.same p ∙ m) f))
        | inr (t, e) ↦
            let (m, f) = first-some c.key k (chain (hash k)) t e in
            let m' = in_chain t (hash k) m in
            e ∙ sym (first_unique c.key k t ps m' f (λ p n g. w.distinct p t n m' (g ∙ sym f)))
      ])

  module _ (x : Pointer) (m : mem x ps ≡ true) where
    absent_now : mem x (remove x ps) ≡ false
    absent_now = ground (arith, mem-remove x x ps w.links.nodup)

    pub touch-touched : touch c x ≡ some (linked (unlinked c x) x)
    unfolding touch unlinked
    touch-touched = rw (remove_node-unlinked c ps w.links x m) (
        add_to_head-linked (unlinked c x) (remove x ps) (unlinked-IsLinked c ps w.links x m) x
          (w.links.allocated x m) absent_now)

    pub kept : (p : Pointer) → mem p (remove x ps) ≡ true → (mem p ps ≡ true) × (p ≢ x)
    kept p n = ground (arith, mem-remove x p ps w.links.nodup)

    mem-touched : (p : Pointer) → mem p (x ∷ remove x ps) ≡ mem p ps
    mem-touched p = ground (arith, mem-remove x p ps w.links.nodup)

    pub touched-IsValid : IsValid (linked (unlinked c x) x) (x ∷ remove x ps) chain
    unfolding linked unlinked
    touched-IsValid = record {
      links =
          linked-IsLinked (unlinked c x) (remove x ps) (unlinked-IsLinked c ps w.links x m) x
            (w.links.allocated x m) absent_now;
      hashed = record {
        chains = w.hashed.chains;
        nodups = w.hashed.nodups;
        homes = w.hashed.homes;
        same = λ p. w.hashed.same p ∙ sym (mem-touched p);
        short = w.hashed.short;
      };
      distinct = λ p q h g e. w.distinct p q (sym (mem-touched p) ∙ h) (sym (mem-touched q) ∙ g) e;
      old = λ p h. w.old p (sym (mem-touched p) ∙ h);
      sized = omega (arith, w.sized, length-remove x ps m);
      room = omega (arith, w.room, length-remove x ps m);
    }

    -- The cache without the node `x`, once it is freed.
    abbrev pub idx : ℕ
    idx = hash (c.key x)

    abbrev pub evicted : Cache
    evicted =
        let u =
          unchained (unlinked c x) (hash (c.key x)) (before none x (chain (hash (c.key x)))) x in
        record u { allocated = update c.allocated x false; size = c.size - 1 }

    IsHashed-unlinked : IsHashed (unlinked c x) ps chain
    unfolding unlinked
    IsHashed-unlinked = record {
      chains = w.hashed.chains;
      nodups = w.hashed.nodups;
      homes = w.hashed.homes;
      same = w.hashed.same;
      short = w.hashed.short;
    }

    first_self : first c.key (c.key x) (chain (hash (c.key x))) ≡ some x
    first_self =
        first_unique c.key (c.key x) x (chain (hash (c.key x))) (w.hashed.same x ∙ m) refl
          (λ p n e. w.distinct p x (in_chain p (hash (c.key x)) n) m e)

    pub evict_tail-evicted : evict_tail c (some x) ≡ some evicted
    unfolding evict_tail unlinked unchained
    evict_tail-evicted =
        rw
          (
            remove_node-unlinked c ps w.links x m,
            remove_from_map-unchained (unlinked c x) ps chain IsHashed-unlinked w.links.allocated
                (c.key x) x first_self,
          )
          refl

    pub evicted-IsValid :
        IsValid evicted
          (remove x ps)
          (update chain (hash (c.key x)) (remove x (chain (hash (c.key x)))))
    unfolding unlinked unchained
    evicted-IsValid =
        let u = unlinked-IsLinked c ps w.links x m in
        let h = unchained-IsHashed (unlinked c x) ps chain IsHashed-unlinked x m w.links.nodup in
        record {
          links = record {
            first = u.first;
            final = u.final;
            nodup = u.nodup;
            prevs = u.prevs;
            nexts = u.nexts;
            allocated = λ p n. ground (arith, kept p n, w.links.allocated p);
          };
          hashed = record {
            chains = h.chains;
            nodups = h.nodups;
            homes = h.homes;
            same = h.same;
            short = h.short;
          };
          distinct = λ p q n o e. w.distinct p q ((kept p n).0) ((kept q o).0) e;
          old = λ p n. w.old p ((kept p n).0);
          sized = omega (arith, w.sized, length-remove x ps m);
          room = omega (arith, w.room, length-remove x ps m);
        }

  -- The new node, which malloc puts behind all that were made.
  pub new_absent : mem c.made ps ≡ false
  new_absent = elim (Bool-cases (mem c.made ps)) [
    | inl e ↦ absurd (ground (arith, w.old c.made e))
    | inr e ↦ e
  ]

  not_in_chain : (i : ℕ) → mem c.made (chain i) ≡ false
  not_in_chain i = ground (arith, in_chain c.made i, new_absent)

  module _ (k : ℕ) (v : ℤ) where
    abbrev pub created : Cache
    created = (create_node c k v).1

    created-IsLinked : IsLinked (create_node c k v).1 ps
    unfolding create_node
    created-IsLinked = record {
      first = w.links.first;
      final = w.links.final;
      nodup = w.links.nodup;
      prevs = λ p m. ground (arith, new_absent, w.links.prevs p);
      nexts = λ p m. ground (arith, new_absent, w.links.nexts p);
      allocated = λ p m. ground (arith, w.links.allocated p);
    }

    -- The cache after the new node is in the list and in its chain.
    abbrev pub grown : Cache
    grown =
        let l = linked (create_node c k v).1 c.made in
        record l {
          hnext = update l.hnext c.made (c.table (hash k));
          table = update c.table (hash k) (some c.made);
          size = c.size + 1;
        }

    pub add_new-grown : add_new c k v ≡ some grown
    unfolding add_new create_node linked put_node deref
    add_new-grown =
        let self : (c.made == c.made) ≡ true = ground arith in
        rw
          (
            add_to_head-linked (create_node c k v).1 ps created-IsLinked c.made (rw self refl)
                new_absent,
            self,
          )
          refl

    module _ (less : length ps < c.capacity) (new_key : first c.key k ps ≡ none) where
      abbrev new_chain : ℕ → List Pointer
      new_chain = update chain (hash k) (c.made ∷ chain (hash k))

      IsChain-grown :
          (i : ℕ) (u : Option Pointer) (start : Option Pointer)
          → IsChain c.hnext start (chain i)
          → IsChain (update (update c.hnext c.made none) c.made u) start (chain i)
      IsChain-grown i u start h =
          IsChain-store (update c.hnext c.made none) (some c.made) u start (chain i)
            (IsChain-store c.hnext (some c.made) none start (chain i) h (λ p e. out p e))
            (λ p e. out p e)
        where
          out : (p : Pointer) → some c.made ≡ some p → mem p (chain i) ≡ false
          out p e = ground (arith, not_in_chain i)

      grown-IsHashed : IsHashed grown (c.made ∷ ps) new_chain
      unfolding linked create_node
      grown-IsHashed =
          let self : (c.made == c.made) ≡ true = ground arith in
          record {
            chains = λ i. elim (Bool-cases (i == hash k)) [
              | inl e ↦
                  rw (e, self)
                    (
                      refl,
                      IsChain-grown (hash k) (c.table (hash k)) (c.table (hash k))
                          (w.hashed.chains (hash k)),
                    )
              | inr e ↦ rw e (IsChain-grown i (c.table (hash k)) (c.table i) (w.hashed.chains i))
            ];
            nodups = λ i.
                update-cases IsNodup chain (hash k) (c.made ∷ chain (hash k)) i
                  (λ _. (not_in_chain (hash k), w.hashed.nodups (hash k))) (λ _. w.hashed.nodups i);
            homes = λ i p h.
                ground (arith, not_in_chain i, w.hashed.homes i p, w.hashed.homes (hash k) p);
            same = λ p. elim (Bool-cases (p == c.made)) [
              | inl e ↦ ground arith
              | inr e ↦ rw e (
                  ground (
                    arith,
                    w.hashed.same p,
                    ap (λ j. mem p (chain j)) {x = hash (c.key p)} {y = hash k},
                  ))
            ];
            short = λ i.
                update-cases (λ (qs : List Pointer). length qs ≤ c.made + 1) chain (hash k)
                  (c.made ∷ chain (hash k)) i (λ _. omega (arith, w.hashed.short (hash k)))
                  (λ _. omega (arith, w.hashed.short i));
          }

      pub grown-IsValid : IsValid grown (c.made ∷ ps) new_chain
      unfolding linked create_node
      grown-IsValid =
          let l =
            linked-IsLinked (create_node c k v).1 ps created-IsLinked c.made (ground arith)
              new_absent in
          let h = grown-IsHashed in
          record {
            links = record {
              first = l.first;
              final = l.final;
              nodup = l.nodup;
              prevs = l.prevs;
              nexts = l.nexts;
              allocated = l.allocated;
            };
            hashed = h;
            distinct = λ p q m n e. ground (
              arith,
              w.distinct p q,
              first-none c.key k ps p new_key,
              first-none c.key k ps q new_key,
            );
            old = λ p m. ground (arith, w.old p);
            sized = omega (arith, w.sized);
            room = omega (arith, less);
          }
