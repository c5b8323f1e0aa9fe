-- ===== src/Lru/Links.antt =====
-- 146.c: the order of nodes in a list of links, and what changes in it when a node leaves or comes.
use leetcode.Base.{
  ℕ, ◌+◌, ◌≡◌, ◌≢◌, refl, Bool, true, false, Option, none, some, List, [], ◌∷◌, arith, ◌==◌,
  if◌then◌else◌, length,
}

abbrev pub mem : ℕ → List ℕ → Bool
mem p [] = false
mem p (q ∷ qs) = if q == p then true else mem p qs

abbrev pub IsNodup : List ℕ → Type 0
IsNodup [] = Unit
IsNodup (p ∷ ps) = (mem p ps ≡ false) × IsNodup ps

abbrev pub head_of : List ℕ → Option ℕ
head_of [] = none
head_of (p ∷ ps) = some p

-- The last element, or `before` in front of an empty list.
abbrev pub last_of : Option ℕ → List ℕ → Option ℕ
last_of before [] = before
last_of before (p ∷ ps) = last_of (some p) ps

-- The neighbours of `p` in a list that holds it.
abbrev pub after : ℕ → List ℕ → Option ℕ
after p [] = none
after p (q ∷ qs) = if q == p then head_of qs else after p qs

abbrev pub before : Option ℕ → ℕ → List ℕ → Option ℕ
before b p [] = none
before b p (q ∷ qs) = if q == p then b else before (some q) p qs

unfoldable pub remove : ℕ → List ℕ → List ℕ
remove p [] = []
remove p (q ∷ qs) = if q == p then qs else q ∷ remove p qs

pub mem-remove :
    (p q : ℕ) (ps : List ℕ)
    → IsNodup ps
    → mem q (remove p ps) ≡ (if q == p then false else mem q ps)
unfolding remove
mem-remove p q [] h = ground arith
mem-remove p q (r ∷ ps) h = ground (arith, mem-remove p q ps h.1)

pub remove-IsNodup : (p : ℕ) (ps : List ℕ) → IsNodup ps → IsNodup (remove p ps)
unfolding remove
remove-IsNodup p [] h = tt
remove-IsNodup p (r ∷ ps) h = ground (arith, mem-remove p r ps h.1, remove-IsNodup p ps h.1)

pub length-remove : (p : ℕ) (ps : List ℕ) → mem p ps ≡ true → length (remove p ps) + 1 ≡ length ps
unfolding remove
length-remove p [] h = cc
length-remove p (r ∷ ps) h = ground (arith, length-remove p ps)

pub after-mem : (p q : ℕ) (ps : List ℕ) → after p ps ≡ some q → mem q ps ≡ true
after-mem p q [] h = cc
after-mem p q (r ∷ []) h = ground arith
after-mem p q (r ∷ s ∷ ps) h = ground (arith, after-mem p q (s ∷ ps))

pub before-mem :
    (b : Option ℕ) (p q : ℕ) (ps : List ℕ) → before b p ps ≡ some q → b ≢ some q → mem q ps ≡ true
before-mem b p q [] h ne = cc
before-mem b p q (r ∷ ps) h ne = ground (arith, before-mem (some r) p q ps)

abbrev pub is_at : Option ℕ → ℕ → Bool
is_at none p = false
is_at (some q) p = q == p

pub head_of-remove :
    (x : ℕ) (ps : List ℕ)
    → head_of (remove x ps) ≡ (if is_at (head_of ps) x then after x ps else head_of ps)
unfolding remove
head_of-remove x [] = refl
head_of-remove x (r ∷ ps) = ground arith

-- The node in front of `x` is found from either side.
pub before-is_head :
    (x r : ℕ) (ps : List ℕ)
    → mem r ps ≡ false
    → mem x ps ≡ true
    → is_at (before (some r) x ps) r ≡ is_at (head_of ps) x
before-is_head x r [] h m = cc
before-is_head x r (s ∷ ps) h m = ground (arith, before-mem (some s) x r ps)

-- What is after another node when `x` is taken out.
pub after-remove :
    (x p : ℕ) (ps : List ℕ) (b : Option ℕ)
    → IsNodup ps
    → p ≢ x
    → mem x ps ≡ true
    → is_at b p ≡ false
    → after p (remove x ps) ≡ (if is_at (before b x ps) p then after x ps else after p ps)
unfolding remove
after-remove x p [] b h ne m bp = cc
after-remove x p (r ∷ ps) b h ne m bp =
    ground
      (arith, h.0, head_of-remove x ps, before-is_head x r ps, after-remove x p ps (some r) h.1)

pub before-front :
    (b c : Option ℕ) (p : ℕ) (ps : List ℕ)
    → mem p ps ≡ true
    → before b p ps ≡ (if is_at (head_of ps) p then b else before c p ps)
before-front b c p [] m = cc
before-front b c p (s ∷ ps) m = ground arith

-- What is in front of another node when `x` is taken out.
pub before-remove :
    (x p : ℕ) (ps : List ℕ) (b : Option ℕ)
    → IsNodup ps
    → p ≢ x
    → mem x ps ≡ true
    → mem p ps ≡ true
    → before b p (remove x ps) ≡ (if is_at (after x ps) p then before b x ps else before b p ps)
unfolding remove
before-remove x p [] b h ne m mp = cc
before-remove x p (r ∷ ps) b h ne m mp =
    ground (
      arith,
      h.0,
      after-mem x p ps,
      before-front b (some r) p ps,
      before-remove x p ps (some r) h.1,
    )

pub last_of-mem :
    (b : Option ℕ) (q : ℕ) (ps : List ℕ)
    → is_at (last_of b ps) q ≡ true
    → is_at b q ≡ false
    → mem q ps ≡ true
last_of-mem b q [] h ne = cc
last_of-mem b q (r ∷ ps) h ne = ground (arith, last_of-mem (some r) q ps)

pub last_of-remove :
    (x : ℕ) (ps : List ℕ) (b : Option ℕ)
    → IsNodup ps
    → mem x ps ≡ true
    → last_of b (remove x ps) ≡ (if is_at (last_of b ps) x then before b x ps else last_of b ps)
unfolding remove
last_of-remove x [] b h m = cc
last_of-remove x (r ∷ []) b h m = ground arith
last_of-remove x (r ∷ s ∷ ps) b h m =
    ground (arith, h.0, last_of-mem (some s) r ps, last_of-remove x (s ∷ ps) (some r) h.1)
