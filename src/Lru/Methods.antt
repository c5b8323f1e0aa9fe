-- ===== src/Lru/Methods.antt =====
-- 146.c: lRUCacheGet and lRUCachePut on the entries of the cache.
use leetcode.Base.{
  ℕ, ◌<◌, ◌≡◌, ◌≢◌, refl, sym, ap, ◌∙◌, subst, true, false, none, some, List, [], ◌∷◌, arith, ◌==◌,
  if◌then◌else◌, update, inl, inr, Option-cases, Bool-cases, length, ==_iff,
}
use leetcode.Base.Int.{ℤ}
use leetcode.Lru.{
  Pointer, Cache, hash, lru_cache_get, lru_cache_put, add_new, get_found, put_found, make_room,
  evict_tail, create_node,
}
use leetcode.Lru.Links.{last_of-mem, mem, remove, last_of}
use leetcode.Lru.Recency.{unlinked, linked}
use leetcode.Lru.Chains.{unchained}
use leetcode.Lru.ChainLinks.{first, first-some}
use leetcode.Lru.Entries.{
  Entry, entries, lookup, erase, drop_last, get_entry, put_entry, length-entries, value_at,
  lookup-entries, erase-entries, drop_last-entries, entries-update, entries-value, get_entry_miss,
  get_entry_hit, put_entry_new, put_entry_again, lookup-drop_last, length-drop_last,
}
use leetcode.Lru.Steps.{
  IsValid, get_node-lem, touch-touched, touched-IsValid, evicted, evict_tail-evicted,
  evicted-IsValid, kept, grown, add_new-grown, grown-IsValid, new_absent,
}

-- The cache holds the entries `l`, the last used first.
pub record Holds (capacity : ℕ) (c : Cache) (l : List Entry) : Type 0 where
  pub order : List Pointer
  pub chain : ℕ → List Pointer
  pub valid : IsValid c order chain
  pub shown : entries c.key c.value order ≡ l
  pub bound : c.capacity ≡ capacity

module _ {n : ℕ} {c : Cache} {l : List Entry} (h : Holds n c l) (k : ℕ) where
  lookup-first : lookup k l ≡ value_at c.key c.value (first c.key k h.order)
  lookup-first = ap (lookup k) (sym h.shown) ∙ lookup-entries c.key c.value k h.order

  with_values : (f : Pointer → ℤ) → IsValid (record c { value = f }) h.order h.chain
  with_values f = record {
    links = record {
      first = h.valid.links.first;
      final = h.valid.links.final;
      nodup = h.valid.links.nodup;
      prevs = h.valid.links.prevs;
      nexts = h.valid.links.nexts;
      allocated = h.valid.links.allocated;
    };
    hashed = record {
      chains = h.valid.hashed.chains;
      nodups = h.valid.hashed.nodups;
      homes = h.valid.hashed.homes;
      same = h.valid.hashed.same;
      short = h.valid.hashed.short;
    };
    distinct = h.valid.distinct;
    old = h.valid.old;
    sized = h.valid.sized;
    room = h.valid.room;
  }

  -- The node with the key moves to the front; the values are `f` from now on.
  module _ (t : Pointer) (e : first c.key k h.order ≡ some t) where
    Holds-touched :
        (f : Pointer → ℤ)
        → ((p : Pointer) → p ≢ t → f p ≡ c.value p)
        → Holds n (linked (unlinked (record c { value = f }) t) t) ((k, f t) ∷ erase k l)
    unfolding linked unlinked entries
    Holds-touched f same =
        let (m, key_of) = first-some c.key k h.order t e in
        let rest : entries c.key f (remove t h.order) ≡ erase k l =
          entries-value c.key f c.value (remove t h.order)
            (λ p i. same p ((kept h.valid t m p i).1))
          ∙ sym (erase-entries c.key c.value k t h.order e)
          ∙ ap (erase k) h.shown in
        record {
          order = t ∷ remove t h.order;
          chain = h.chain;
          valid = touched-IsValid (with_values f) t m;
          shown = rw (key_of, rest) refl;
          bound = h.bound;
        }

  pub lru_cache_get_lem :
      (c' : Cache) × (lru_cache_get c k ≡ some ((get_entry k l).0, c'))
      × Holds n c' (get_entry k l).1
  unfolding lru_cache_get get_found get_entry linked unlinked
  lru_cache_get_lem = elim (Option-cases (first c.key k h.order)) [
    | inl e ↦
        let absent : lookup k l ≡ none = lookup-first ∙ ap (value_at c.key c.value) e in
        rw (get_entry_miss k l absent) (c, rw (get_node-lem h.valid k, e) refl, h)
    | inr (t, e) ↦
        let present : lookup k l ≡ some (c.value t) =
          lookup-first ∙ ap (value_at c.key c.value) e in
        let (m, key_of) = first-some c.key k h.order t e in
        rw (get_entry_hit k l (c.value t) present) (
          linked (unlinked c t) t,
          rw (get_node-lem h.valid k, e, touch-touched h.valid t m) refl,
          Holds-touched t e c.value (λ p ne. refl),
        )
  ]

  first-new : lookup k l ≡ none → first c.key k h.order ≡ none
  first-new absent = elim (Option-cases (first c.key k h.order)) [
    | inl e ↦ e
    | inr (t, e) ↦ absurd (cc (absent, lookup-first, ap (value_at c.key c.value) e))
  ]

  entries-grown :
      (v : ℤ)
      → entries (grown h.valid k v).key (grown h.valid k v).value (c.made ∷ h.order) ≡ (k, v) ∷ l
  unfolding linked create_node entries
  entries-grown v =
      let self : (c.made == c.made) ≡ true = ground arith in
      let rest = entries-update c.key c.value c.made k v h.order (new_absent h.valid) ∙ h.shown in
      rw (self, rest) refl

  -- A new entry, where there is room for it.
  Holds-grown :
      (v : ℤ)
      → lookup k l ≡ none
      → length l < n
      → (c' : Cache) × (add_new c k v ≡ some c') × Holds n c' ((k, v) ∷ l)
  Holds-grown v absent less =
      let count = length-entries c.key c.value h.order in
      let fits : length h.order < c.capacity = omega (arith, count, ap length h.shown, h.bound) in
      (
        grown h.valid k v,
        add_new-grown h.valid k v,
        record {
          order = c.made ∷ h.order;
          chain = update h.chain (hash k) (c.made ∷ h.chain (hash k));
          valid = grown-IsValid h.valid k v fits (first-new absent);
          shown = entries-grown v;
          bound = unfold linked create_node in h.bound;
        },
      )

-- The tail leaves a full cache.
Holds-evicted :
    {n : ℕ} {c : Cache} {l : List Entry} (h : Holds n c l) (t : Pointer) (m : mem t h.order ≡ true)
    → last_of none h.order ≡ some t
    → Holds n (evicted h.valid t m) (drop_last l)
unfolding unlinked unchained
Holds-evicted {n} {c} {l} h t m e = record {
  order = remove t h.order;
  chain = update h.chain (hash (c.key t)) (remove t (h.chain (hash (c.key t))));
  valid = evicted-IsValid h.valid t m;
  shown =
      sym (drop_last-entries c.key c.value t h.order h.valid.links.nodup e) ∙ ap drop_last h.shown;
  bound = h.bound;
}

last_is_some : (ps : List Pointer) → 0 < length ps → (t : Pointer) × (last_of none ps ≡ some t)
last_is_some [] h = absurd (omega arith)
last_is_some (p ∷ []) h = (p, refl)
last_is_some (p ∷ q ∷ ps) h = last_is_some (q ∷ ps) (omega arith)

-- A full cache makes room for one entry, and any other stays as it is.
make_room_lem :
    {n : ℕ} {c : Cache} {l : List Entry}
    → Holds n c l
    → 0 < n
    → (c' : Cache) × (make_room c ≡ some c')
      × Holds n c' (if length l == n then drop_last l else l)
      × (length (if length l == n then drop_last l else l) < n)
unfolding make_room
make_room_lem {n} {c} {l} h pos =
    let count = length-entries c.key c.value h.order in
    let size : c.size ≡ length l = omega (arith, h.valid.sized, count, ap length h.shown) in
    elim (Bool-cases (length l == n)) [
      | inl e ↦
          let (t, last) =
            last_is_some h.order (omega (arith, h.valid.sized, size, (==_iff (length l) n).0 e)) in
          let m = last_of-mem none t h.order (ground (arith, last)) refl in
          let full : (c.size == c.capacity) ≡ true = ground (arith, h.bound) in
          let less : length (drop_last l) < n = omega (
            arith,
            (==_iff (length l) n).0 e,
            length-drop_last l (omega (arith, (==_iff (length l) n).0 e)),
          ) in
          rw (e, full)
            (
              evicted h.valid t m,
              ap (evict_tail c) (h.valid.links.final ∙ last) ∙ evict_tail-evicted h.valid t m,
              Holds-evicted h t m last,
              less,
            )
      | inr e ↦
          let more : (c.size == c.capacity) ≡ false = ground (arith, h.bound) in
          rw (e, more) (c, refl, h, ground (arith, h.valid.room, h.valid.sized, size, h.bound))
    ]

lookup-room :
    (n k : ℕ) (l : List Entry)
    → lookup k l ≡ none
    → lookup k (if length l == n then drop_last l else l) ≡ none
lookup-room n k l h = ground (arith, lookup-drop_last k l)

pub lru_cache_put_lem :
    {n : ℕ} {c : Cache} {l : List Entry}
    → Holds n c l
    → 0 < n
    → (k : ℕ) (v : ℤ)
    → (c' : Cache) × (lru_cache_put c k v ≡ some c') × Holds n c' (put_entry n k v l)
unfolding lru_cache_put put_found
lru_cache_put_lem {n} {c} {l} h pos k v = elim (Option-cases (first c.key k h.order)) [
  | inl e ↦
      let absent : lookup k l ≡ none = lookup-first h k ∙ ap (value_at c.key c.value) e in
      let (c1, made, h1, less) = make_room_lem h pos in
      let (c2, added, h2) = Holds-grown h1 k v (lookup-room n k l absent) less in
      rw (put_entry_new k l n v absent) (c2, rw (get_node-lem h.valid k, e, made) added, h2)
  | inr (t, e) ↦
      let present : lookup k l ≡ some (c.value t) =
        lookup-first h k ∙ ap (value_at c.key c.value) e in
      let f = update c.value t v in
      let self : f t ≡ v = ground arith in
      let (m, key_of) = first-some c.key k h.order t e in
      let touched = Holds-touched h k t e f (λ p ne. ground arith) in
      rw (put_entry_again k l n v (c.value t) present) (
        linked (unlinked (record c { value = f }) t) t,
        rw (get_node-lem h.valid k, e) (touch-touched (with_values h k f) t m),
        subst (λ x. Holds n (linked (unlinked (record c { value = f }) t) t) ((k, x) ∷ erase k l))
            self touched,
      )
]
