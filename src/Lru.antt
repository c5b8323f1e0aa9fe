-- ===== src/Lru.antt =====
-- 146.c: a cache that drops the least recently used entry. A `Node *` is a number, and the fields of
-- the nodes are functions of it, so that a store changes one field of one node for all who point to
-- it. malloc gives the next number, and `none` is an access to a node that is not allocated: a NULL
-- or freed pointer. Keys are not negative, as `key % map_size` is an index only then.
pub mod Links
pub mod Recency
pub mod ChainLinks
pub mod Chains
pub mod Entries
pub mod Steps
pub mod Methods
pub mod Refinement
mod Tests
use leetcode.Base.{
  ℕ, zero, suc, ◌+◌, ◌-◌, ◌%◌, Bool, true, false, Option, none, some, ◌==◌, if◌then◌else◌, update,
}
use leetcode.Base.Int.{ℤ, negsuc}
use leetcode.Base.Fallible.{◌>>=◌}

abbrev pub Pointer : Type 0
Pointer = ℕ

abbrev pub map_size : ℕ
map_size = 10_007

pub record Cache : Type 0 where
  pub capacity : ℕ
  pub size : ℕ
  pub head : Option Pointer
  pub tail : Option Pointer
  pub table : ℕ → Option Pointer
  pub allocated : Pointer → Bool
  pub made : ℕ
  pub key : Pointer → ℕ
  pub value : Pointer → ℤ
  pub prev : Pointer → Option Pointer
  pub next : Pointer → Option Pointer
  pub hnext : Pointer → Option Pointer

-- An access to `*p`.
unfoldable pub deref {ℓ} : {A : Type ℓ} → Cache → Pointer → A → Option A
deref c p a = if c.allocated p then some a else none

abbrev pub hash : ℕ → ℕ
hash key = key % map_size

unfoldable pub create_node : Cache → ℕ → ℤ → Pointer × Cache
create_node c key value = (
  c.made,
  record c {
    allocated = update c.allocated c.made true;
    made = c.made + 1;
    key = update c.key c.made key;
    value = update c.value c.made value;
    prev = update c.prev c.made none;
    next = update c.next c.made none;
    hnext = update c.hnext c.made none;
  },
)

-- The two links that are set when a node leaves the list.
unfoldable pub unlink_next : Cache → Pointer → Option Cache
unfolding deref
unlink_next c node = elim (c.prev node) [
  | some p ↦ deref c p (record c { next = update c.next p (c.next node) })
  | none ↦ some (record c { head = c.next node })
]

unfoldable pub unlink_prev : Cache → Pointer → Option Cache
unfolding deref
unlink_prev c node = elim (c.next node) [
  | some n ↦ deref c n (record c { prev = update c.prev n (c.prev node) })
  | none ↦ some (record c { tail = c.prev node })
]

unfoldable pub remove_node : Cache → Pointer → Option Cache
unfolding deref unlink_next unlink_prev
remove_node c node = do c ← deref c node c; c ← unlink_next c node; unlink_prev c node

-- `if (cache->head) cache->head->prev = node`
unfoldable pub link_to : Cache → Pointer → Option Pointer → Option Cache
unfolding deref
link_to c node none = some c
link_to c node (some h) = deref c h (record c { prev = update c.prev h (some node) })

abbrev pub or_else : Option Pointer → Pointer → Option Pointer
or_else none p = some p
or_else (some t) p = some t

unfoldable pub add_to_head : Cache → Pointer → Option Cache
unfolding deref link_to
add_to_head c node = do
  c ← deref c node (record c { next = update c.next node c.head; prev = update c.prev node none })
  c ← link_to c node c.head
  some (record c { head = some node; tail = or_else c.tail node })

-- The loop of getNode. A chain has at most as many nodes as were made.
unfoldable pub find : (fuel : ℕ) → Cache → ℕ → Option Pointer → Option (Option Pointer)
find zero c key at = none
find (suc fuel) c key none = some none
find (suc fuel) c key (some p) =
    let rest = find fuel c key (c.hnext p) in
    if c.allocated p then (if c.key p == key then some (some p) else rest) else none

unfoldable pub get_node : Cache → ℕ → Option (Option Pointer)
unfolding find
get_node c key = find (c.made + 1) c key (c.table (hash key))

unfoldable pub put_node : Cache → Pointer → Option Cache
unfolding deref
put_node c node =
    let idx = hash (c.key node) in
    deref c node (record c {
      hnext = update c.hnext node (c.table idx);
      table = update c.table idx (some node);
    })

-- The loop of removeFromMap, and its body at the node with the key.
unfoldable pub unchain : Cache → (idx : ℕ) → Option Pointer → Pointer → Option Cache
unfolding deref
unchain c idx none p = some (record c { table = update c.table idx (c.hnext p) })
unchain c idx (some q) p = deref c q (record c { hnext = update c.hnext q (c.hnext p) })

unfoldable pub remove_loop :
    (fuel : ℕ) → Cache → (key idx : ℕ) → (prev node : Option Pointer) → Option Cache
remove_loop zero c key idx prev at = none
remove_loop (suc fuel) c key idx prev none = some c
remove_loop (suc fuel) c key idx prev (some p) =
    let rest = remove_loop fuel c key idx (some p) (c.hnext p) in
    if c.allocated p then (if c.key p == key then unchain c idx prev p else rest) else none

unfoldable pub remove_from_map : Cache → ℕ → Option Cache
unfolding remove_loop
remove_from_map c key = remove_loop (c.made + 1) c key (hash key) none (c.table (hash key))

unfoldable pub lru_cache_create : ℕ → Cache
lru_cache_create capacity = record {
  capacity = capacity;
  size = 0;
  head = none;
  tail = none;
  table = λ i. none;
  allocated = λ p. false;
  made = 0;
  key = λ p. 0;
  value = λ p. negsuc 0;
  prev = λ p. none;
  next = λ p. none;
  hnext = λ p. none;
}

-- What lRUCacheGet does with the node that it found.
unfoldable pub touch : Cache → Pointer → Option Cache
unfolding remove_node add_to_head
touch c node = do c ← remove_node c node; add_to_head c node

unfoldable pub get_found : Cache → Option Pointer → Option (ℤ × Cache)
unfolding touch
get_found c none = some (negsuc 0, c)
get_found c (some node) = do c ← touch c node; some (c.value node, c)

unfoldable pub lru_cache_get : Cache → ℕ → Option (ℤ × Cache)
unfolding get_node get_found
lru_cache_get c key = do found ← get_node c key; get_found c found

-- The eviction of the tail, which is NULL in an empty cache.
unfoldable pub evict_tail : Cache → Option Pointer → Option Cache
unfolding remove_node remove_from_map
evict_tail c none = none
evict_tail c (some t) = do
  c ← remove_node c t
  c ← remove_from_map c (c.key t)
  some (record c { allocated = update c.allocated t false; size = c.size - 1 })

unfoldable pub make_room : Cache → Option Cache
unfolding evict_tail
make_room c = if c.size == c.capacity then evict_tail c c.tail else some c

unfoldable pub add_new : Cache → ℕ → ℤ → Option Cache
unfolding create_node add_to_head put_node
add_new c key value =
    let (node, c) = create_node c key value in
    do c ← add_to_head c node; c ← put_node c node; some (record c { size = c.size + 1 })

unfoldable pub put_found : Cache → ℕ → ℤ → Option Pointer → Option Cache
unfolding touch make_room add_new
put_found c key value (some node) = touch (record c { value = update c.value node value }) node
put_found c key value none = do c ← make_room c; add_new c key value

unfoldable pub lru_cache_put : Cache → ℕ → ℤ → Option Cache
unfolding get_node put_found
lru_cache_put c key value = do found ← get_node c key; put_found c key value found
