-- ===== src/Lru/Entries.antt =====
-- 146.c: the keys and values of the nodes in the order of their use, and a recency list of such
-- pairs, which says what the cache is to do.
use leetcode.Base.{
  ℕ, ◌+◌, ◌<◌, ◌≡◌, ◌≢◌, refl, ap, true, false, Option, none, some, List, [], ◌∷◌, arith, ◌==◌,
  if◌then◌else◌, update, inl, inr, Bool-cases, length,
}
use leetcode.Base.Int.{ℤ, negsuc}
use leetcode.Lru.{Pointer}
use leetcode.Lru.Links.{mem, IsNodup, remove, last_of, last_of-mem}
use leetcode.Lru.ChainLinks.{first, first-some}

abbrev pub Entry : Type 0
Entry = ℕ × ℤ

unfoldable pub lookup : ℕ → List Entry → Option ℤ
lookup k [] = none
lookup k ((j, v) ∷ l) = if j == k then some v else lookup k l

unfoldable pub erase : ℕ → List Entry → List Entry
erase k [] = []
erase k ((j, v) ∷ l) = if j == k then l else (j, v) ∷ erase k l

unfoldable pub drop_last : List Entry → List Entry
drop_last [] = []
drop_last (e ∷ []) = []
drop_last (e ∷ f ∷ l) = e ∷ drop_last (f ∷ l)

-- A key that is read moves to the front.
unfoldable pub get_entry : ℕ → List Entry → ℤ × List Entry
get_entry k l = elim (lookup k l) [ none ↦ (negsuc 0, l) | some v ↦ (v, (k, v) ∷ erase k l) ]

-- A key that is written moves to the front too. A new one takes the place of the last, if there are
-- `capacity` of them.
unfoldable pub put_entry : (capacity : ℕ) → ℕ → ℤ → List Entry → List Entry
put_entry capacity k v l = elim (lookup k l) [
  | none ↦ (k, v) ∷ (if length l == capacity then drop_last l else l)
  | some _ ↦ (k, v) ∷ erase k l
]

module _ (k : ℕ) (l : List Entry) where
  pub get_entry_miss : lookup k l ≡ none → get_entry k l ≡ (negsuc 0, l)
  unfolding get_entry
  get_entry_miss h = rw (h, get_entry) refl

  pub get_entry_hit : (v : ℤ) → lookup k l ≡ some v → get_entry k l ≡ (v, (k, v) ∷ erase k l)
  unfolding get_entry
  get_entry_hit v h = rw (h, get_entry) refl

  module _ (n : ℕ) (v : ℤ) where
    pub put_entry_new :
        lookup k l ≡ none → put_entry n k v l ≡ (k, v) ∷ (if length l == n then drop_last l else l)
    unfolding put_entry
    put_entry_new h = rw (h, put_entry) refl

    pub put_entry_again : (w : ℤ) → lookup k l ≡ some w → put_entry n k v l ≡ (k, v) ∷ erase k l
    unfolding put_entry
    put_entry_again w h = rw (h, put_entry) refl

pub lookup-drop_last : (k : ℕ) (l : List Entry) → lookup k l ≡ none → lookup k (drop_last l) ≡ none
unfolding lookup drop_last
lookup-drop_last k [] h = refl
lookup-drop_last k (e ∷ []) h = refl
lookup-drop_last k (e ∷ f ∷ l) h = ground (arith, lookup-drop_last k (f ∷ l))

pub length-drop_last : (l : List Entry) → 0 < length l → length (drop_last l) + 1 ≡ length l
unfolding drop_last
length-drop_last [] h = absurd (omega arith)
length-drop_last (e ∷ []) h = omega arith
length-drop_last (e ∷ f ∷ l) h = omega (arith, length-drop_last (f ∷ l) (omega arith))

module _ (key : Pointer → ℕ) where
  pub first_unique :
      (k : ℕ) (t : Pointer) (qs : List Pointer)
      → mem t qs ≡ true
      → key t ≡ k
      → ((p : Pointer) → mem p qs ≡ true → key p ≡ k → p ≡ t)
      → first key k qs ≡ some t
  unfolding first
  first_unique k t [] m e u = cc
  first_unique k t (q ∷ qs) m e u = elim (Bool-cases (key q == k)) [
    | inl f ↦ rw f (ap some (u q (ground arith) (ground arith)))
    | inr f ↦ rw f (first_unique k t qs (ground (arith, ap key)) e (λ p n g. u p (ground arith) g))
  ]

  pub first-absent :
      (k : ℕ) (qs : List Pointer)
      → ((p : Pointer) → mem p qs ≡ true → key p ≢ k)
      → first key k qs ≡ none
  unfolding first
  first-absent k [] a = refl
  first-absent k (q ∷ qs) a = ground (arith, a q, first-absent k qs (λ p m. a p (ground arith)))

  module _ (value : Pointer → ℤ) where
    unfoldable pub entries : List Pointer → List Entry
    entries [] = []
    entries (p ∷ ps) = (key p, value p) ∷ entries ps

    pub length-entries : (ps : List Pointer) → length (entries ps) ≡ length ps
    unfolding entries
    length-entries [] = refl
    length-entries (p ∷ ps) = ground (arith, length-entries ps)

    abbrev pub value_at : Option Pointer → Option ℤ
    value_at none = none
    value_at (some p) = some (value p)

    pub lookup-entries :
        (k : ℕ) (ps : List Pointer) → lookup k (entries ps) ≡ value_at (first key k ps)
    unfolding lookup entries first
    lookup-entries k [] = refl
    lookup-entries k (p ∷ ps) = ground (arith, lookup-entries k ps)

    pub erase-entries :
        (k : ℕ) (t : Pointer) (ps : List Pointer)
        → first key k ps ≡ some t
        → erase k (entries ps) ≡ entries (remove t ps)
    unfolding erase entries first remove
    erase-entries k t [] h = cc
    erase-entries k t (p ∷ ps) h = ground (arith, erase-entries k t ps, first-some key k ps t)

    pub drop_last-entries :
        (t : Pointer) (ps : List Pointer)
        → IsNodup ps
        → last_of none ps ≡ some t
        → drop_last (entries ps) ≡ entries (remove t ps)
    unfolding drop_last entries remove
    drop_last-entries t [] n h = cc
    drop_last-entries t (p ∷ []) n h = ground arith
    drop_last-entries t (p ∷ q ∷ ps) n h =
        ground (arith, n.0, last_of-mem (some q) p ps, drop_last-entries t (q ∷ ps) n.1)

-- New fields of a node that is not in the list change none of its entries.
pub entries-update :
    (key : Pointer → ℕ) (value : Pointer → ℤ) (x : Pointer) (k : ℕ) (v : ℤ) (ps : List Pointer)
    → mem x ps ≡ false
    → entries (update key x k) (update value x v) ps ≡ entries key value ps
unfolding entries
entries-update key value x k v [] h = refl
entries-update key value x k v (p ∷ ps) h = ground (arith, entries-update key value x k v ps)

pub entries-value :
    (key : Pointer → ℕ) (f g : Pointer → ℤ) (ps : List Pointer)
    → ((p : Pointer) → mem p ps ≡ true → f p ≡ g p)
    → entries key f ps ≡ entries key g ps
unfolding entries
entries-value key f g [] h = refl
entries-value key f g (p ∷ ps) h =
    ground (arith, h p, entries-value key f g ps (λ q m. h q (ground arith)))
