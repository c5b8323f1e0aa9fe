-- ===== src/Lru/Recency.antt =====
-- 146.c: removeNode and addToHead on the list of the nodes in the order of their use.
use leetcode.Base.{
  ℕ, ◌≡◌, refl, sym, ap, ◌∙◌, true, false, Option, none, some, List, [], ◌∷◌, arith, ◌==◌,
  if◌then◌else◌, update, inl, inr, Option-cases, Bool-cases,
}
use leetcode.Lru.{
  Pointer, Cache, deref, remove_node, unlink_next, unlink_prev, add_to_head, link_to, or_else,
}
use leetcode.Lru.Links.{
  mem, IsNodup, head_of, last_of, after, before, remove, is_at, mem-remove, remove-IsNodup,
  after-mem, before-mem, after-remove, before-remove, last_of-remove, last_of-mem, before-front,
}

-- The nodes `ps` are linked in this order, both ways.
pub record IsLinked (c : Cache) (ps : List Pointer) : Type 0 where
  pub first : c.head ≡ head_of ps
  pub final : c.tail ≡ last_of none ps
  pub nodup : IsNodup ps
  pub prevs : (p : Pointer) → mem p ps ≡ true → c.prev p ≡ before none p ps
  pub nexts : (p : Pointer) → mem p ps ≡ true → c.next p ≡ after p ps
  pub allocated : (p : Pointer) → mem p ps ≡ true → c.allocated p ≡ true

-- `f` with a store through a pointer that may be NULL.
abbrev pub store :
    (Pointer → Option Pointer) → Option Pointer → Option Pointer → Pointer → Option Pointer
store f none v p = f p
store f (some q) v p = update f q v p

abbrev pub or_set : {A : Type 0} → Option Pointer → A → A → A
or_set none set keep = set
or_set (some q) set keep = keep

-- The cache after removeNode.
unfoldable pub unlinked : Cache → Pointer → Cache
unlinked c x = record c {
  head = or_set (c.prev x) (c.next x) c.head;
  tail = or_set (c.next x) (c.prev x) c.tail;
  next = store c.next (c.prev x) (c.next x);
  prev = store c.prev (c.next x) (c.prev x);
}

-- The cache after addToHead.
unfoldable pub linked : Cache → Pointer → Cache
linked c x = record c {
  head = some x;
  tail = or_else c.tail x;
  next = update c.next x c.head;
  prev = store (update c.prev x none) c.head (some x);
}

before-ne :
    (b : Option ℕ) (x : ℕ) (ps : List ℕ)
    → IsNodup ps
    → is_at b x ≡ false
    → is_at (before b x ps) x ≡ false
before-ne b x [] n h = refl
before-ne b x (p ∷ ps) n h = ground (arith, before-ne (some p) x ps n.1)

head_at : (x : ℕ) (ps : List ℕ) → mem x ps ≡ false → is_at (head_of ps) x ≡ false
head_at x [] h = refl
head_at x (p ∷ ps) h = ground arith

after-ne : (x : ℕ) (ps : List ℕ) → IsNodup ps → is_at (after x ps) x ≡ false
after-ne x [] n = refl
after-ne x (p ∷ ps) n = ground (arith, n.0, after-ne x ps n.1, head_at x ps)

pub store_if :
    (f : Pointer → Option Pointer) (o v : Option Pointer) (p : Pointer)
    → store f o v p ≡ (if is_at o p then v else f p)
store_if f none v p = refl
store_if f (some q) v p = ground arith

pub before-is_some :
    (p x : ℕ) (ps : List ℕ) → mem x ps ≡ true → (q : ℕ) × (before (some p) x ps ≡ some q)
before-is_some p x [] m = cc
before-is_some p x (r ∷ ps) m = elim (Bool-cases (r == x)) [
  | inl e ↦ (p, rw e refl)
  | inr e ↦ rw e (before-is_some r x ps (ground arith))
]

-- The first node is the one with none in front of it, and the last the one with none behind.
first-remove :
    (x : ℕ) (ps : List ℕ)
    → mem x ps ≡ true
    → or_set (before none x ps) (after x ps) (head_of ps) ≡ head_of (remove x ps)
unfolding remove
first-remove x [] m = cc
first-remove x (p ∷ ps) m = ground (arith, before-is_some p x ps)

last_of-after :
    (b : Option ℕ) (x : ℕ) (ps : List ℕ)
    → (s k : Option ℕ) → IsNodup ps
    → mem x ps ≡ true
    → or_set (after x ps) s k ≡ (if is_at (last_of b ps) x then s else k)
last_of-after b x [] s k n m = cc
last_of-after b x (r ∷ []) s k n m = ground arith
last_of-after b x (r ∷ t ∷ ps) s k n m =
    ground (arith, n.0, last_of-mem (some t) r ps, last_of-after (some r) x (t ∷ ps) s k n.1)

unlink_next-store :
    (c : Cache) (x : Pointer)
    → ((p : Pointer) → c.prev x ≡ some p → c.allocated p ≡ true)
    → unlink_next c x
      ≡ some (record c {
        head = or_set (c.prev x) (c.next x) c.head;
        next = store c.next (c.prev x) (c.next x);
      })
unfolding unlink_next deref
unlink_next-store c x a = elim (Option-cases (c.prev x)) [
  | inl e ↦ rw (e, unlink_next) refl
  | inr (p, e) ↦ rw (e, a p e, unlink_next) refl
]

unlink_prev-store :
    (c : Cache) (x : Pointer)
    → ((p : Pointer) → c.next x ≡ some p → c.allocated p ≡ true)
    → unlink_prev c x
      ≡ some (record c {
        tail = or_set (c.next x) (c.prev x) c.tail;
        prev = store c.prev (c.next x) (c.prev x);
      })
unfolding unlink_prev deref
unlink_prev-store c x a = elim (Option-cases (c.next x)) [
  | inl e ↦ rw (e, unlink_prev) refl
  | inr (p, e) ↦ rw (e, a p e, unlink_prev) refl
]

link_to-store :
    (c : Cache) (x : Pointer) (h : Option Pointer)
    → ((p : Pointer) → h ≡ some p → c.allocated p ≡ true)
    → link_to c x h ≡ some (record c { prev = store c.prev h (some x) })
unfolding link_to deref
link_to-store c x none a = refl
link_to-store c x (some p) a = rw (a p refl) refl

last_is_some : (p : ℕ) (ps : List ℕ) → (q : ℕ) × (last_of (some p) ps ≡ some q)
last_is_some p [] = (p, refl)
last_is_some p (r ∷ ps) = last_is_some r ps

last_of-or_else : (x : ℕ) (ps : List ℕ) → or_else (last_of none ps) x ≡ last_of (some x) ps
last_of-or_else x [] = refl
last_of-or_else x (p ∷ ps) = let (q, e) = last_is_some p ps in rw e refl

head_of-mem : (p : ℕ) (ps : List ℕ) → head_of ps ≡ some p → mem p ps ≡ true
head_of-mem p [] h = cc
head_of-mem p (q ∷ ps) h = ground arith

module _ (c : Cache) (ps : List Pointer) (w : IsLinked c ps) (x : Pointer) where
  pub remove_node-unlinked : mem x ps ≡ true → remove_node c x ≡ some (unlinked c x)
  unfolding remove_node unlink_next unlink_prev deref unlinked
  remove_node-unlinked m =
      let xp : c.prev x ≡ before none x ps = w.prevs x m in
      let xn : c.next x ≡ after x ps = w.nexts x m in
      let c1 = record c {
        head = or_set (c.prev x) (c.next x) c.head;
        next = store c.next (c.prev x) (c.next x);
      } in
      let same : store c.next (c.prev x) (c.next x) x ≡ c.next x =
        ground
          (arith, xp, store_if c.next (c.prev x) (c.next x) x, before-ne none x ps w.nodup refl) in
      rw
        (
          w.allocated x m,
          unlink_next-store c x (λ p e. w.allocated p (before-mem none x p ps (sym xp ∙ e) (cc))),
        )
        (unlink_prev-store c1 x (λ p e. w.allocated p (after-mem x p ps (sym xn ∙ sym same ∙ e)))
          ∙ ap
              (λ (o : Option Pointer).
                some (record c1 {
                  tail = or_set o (c.prev x) c.tail;
                  prev = store c.prev o (c.prev x);
                }))
              same)

  pub unlinked-IsLinked : mem x ps ≡ true → IsLinked (unlinked c x) (remove x ps)
  unfolding unlinked
  unlinked-IsLinked m =
      let xp = w.prevs x m in
      let xn = w.nexts x m in
      record {
        first = ground (arith, w.first, first-remove x ps m);
        final = ground (
          arith,
          w.final,
          last_of-after none x ps (c.prev x) c.tail w.nodup m,
          last_of-remove x ps none w.nodup m,
        );
        nodup = remove-IsNodup x ps w.nodup;
        prevs = λ p h. ground (
          arith,
          mem-remove x p ps w.nodup,
          store_if c.prev (c.next x) (c.prev x) p,
          w.prevs p,
          before-remove x p ps none w.nodup,
        );
        nexts = λ p h. ground (
          arith,
          mem-remove x p ps w.nodup,
          store_if c.next (c.prev x) (c.next x) p,
          w.nexts p,
          after-remove x p ps none w.nodup,
        );
        allocated = λ p h. w.allocated p (ground (arith, mem-remove x p ps w.nodup));
      }

  pub add_to_head-linked :
      c.allocated x ≡ true → mem x ps ≡ false → add_to_head c x ≡ some (linked c x)
  unfolding add_to_head deref linked
  add_to_head-linked a m =
      let c1 = record c { next = update c.next x c.head; prev = update c.prev x none } in
      rw (a, link_to-store c1 x c.head (λ p e. w.allocated p (head_of-mem p ps (sym w.first ∙ e))))
        refl

  pub linked-IsLinked : c.allocated x ≡ true → mem x ps ≡ false → IsLinked (linked c x) (x ∷ ps)
  unfolding linked
  linked-IsLinked a m = record {
    first = refl;
    final = ap (λ t. or_else t x) w.final ∙ last_of-or_else x ps;
    nodup = (m, w.nodup);
    prevs = λ p h. ground (
      arith,
      store_if (update c.prev x none) c.head (some x) p,
      w.first,
      w.prevs p,
      before-front (some x) none p ps,
      head_at x ps,
    );
    nexts = λ p h. ground (arith, w.first, w.nexts p);
    allocated = λ p h. ground (arith, w.allocated p);
  }
