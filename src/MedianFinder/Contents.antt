-- ===== src/MedianFinder/Contents.antt =====
-- 295.c: the values of a tree in order, its sizes, and where a new value goes.
use leetcode.Base.{
  ℕ, ◌+◌, ◌≡◌, refl, sym, ap, ◌∙◌, subst, true, false, inl, inr, Bool-cases, List, [], ◌∷◌, ◌++◌,
  if◌then◌else◌, arith, All, All-split, length, length-append,
}
use leetcode.Base.Int.{ℤ, ltb_ℤ, ◌≤ℤ◌}
use leetcode.MedianFinder.{
  Tree, leaf, node, of_left, of_right, Frames, zip, node_size, blacken, is_red,
}

unfoldable pub contents : Tree → List ℤ
contents leaf = []
contents (node l v c s r) = contents l ++ (v ∷ contents r)

unfoldable pub count : Tree → ℕ
count leaf = 0
count (node l v c s r) = 1 + count l + count r

pub length-contents : (t : Tree) → length (contents t) ≡ count t
unfolding contents count
length-contents leaf = refl
length-contents (node l v c s r) =
    omega (arith, length-append (contents l) (v ∷ contents r), length-contents l, length-contents r)

-- Every size is the number of nodes.
abbrev pub IsSized : Tree → Type 0
IsSized leaf = Unit
IsSized (node l v c s r) = (s ≡ 1 + count l + count r) × IsSized l × IsSized r

pub node_size_lem : (t : Tree) → IsSized t → node_size t ≡ count t
unfolding count
node_size_lem leaf h = refl
node_size_lem (node l v c s r) h = h.0

-- The sizes above a part of `n` nodes.
abbrev pub IsSizedPath : Frames → (n : ℕ) → Type 0
IsSizedPath [] n = Unit
IsSizedPath (of_left v c s r ∷ up) n =
    (s ≡ 1 + n + count r) × IsSized r × IsSizedPath up (1 + n + count r)
IsSizedPath (of_right l v c s ∷ up) n =
    (s ≡ 1 + count l + n) × IsSized l × IsSizedPath up (1 + count l + n)

pub zip-IsSized :
    (t : Tree) (path : Frames) → IsSized t → IsSizedPath path (count t) → IsSized (zip t path)
unfolding count
zip-IsSized t [] h k = h
zip-IsSized t (of_left v c s r ∷ up) h k = zip-IsSized (node t v c s r) up (k.0, h, k.1) k.2
zip-IsSized t (of_right l v c s ∷ up) h k = zip-IsSized (node l v c s t) up (k.0, k.1, h) k.2

pub unzip-IsSized :
    (t : Tree) (path : Frames) → IsSized (zip t path) → IsSized t × IsSizedPath path (count t)
unfolding count
unzip-IsSized t [] h = (h, tt)
unzip-IsSized t (of_left v c s r ∷ up) h =
    let (a, b) = unzip-IsSized (node t v c s r) up h in (a.1, (a.0, a.2, b))
unzip-IsSized t (of_right l v c s ∷ up) h =
    let (a, b) = unzip-IsSized (node l v c s t) up h in (a.2, (a.0, a.1, b))

-- Another tree with the same values below a path.
pub zip-contents :
    (t u : Tree) (path : Frames)
    → contents t ≡ contents u
    → contents (zip t path) ≡ contents (zip u path)
unfolding contents
zip-contents t u [] e = e
zip-contents t u (of_left v c s r ∷ up) e =
    zip-contents (node t v c s r) (node u v c s r) up (ap (λ xs. xs ++ (v ∷ contents r)) e)
zip-contents t u (of_right l v c s ∷ up) e =
    zip-contents (node l v c s t) (node l v c s u) up (ap (λ xs. contents l ++ (v ∷ xs)) e)

pub replaced-IsSized :
    (t u : Tree) (path : Frames)
    → contents t ≡ contents u
    → (IsSized t → IsSized u)
    → IsSized (zip t path)
    → IsSized (zip u path)
replaced-IsSized t u path e k h =
    let (a, b) = unzip-IsSized t path h in
    zip-IsSized u path (k a)
      (subst (IsSizedPath path) (sym (length-contents t) ∙ ap length e ∙ length-contents u) b)

abbrev pub IsAscending : List ℤ → Type 0
IsAscending [] = Unit
IsAscending (x ∷ xs) = All (λ y. x ≤ℤ y) xs × IsAscending xs

-- Behind the values that are not larger.
unfoldable pub insert_sorted : ℤ → List ℤ → List ℤ
insert_sorted v [] = v ∷ []
insert_sorted v (x ∷ xs) =
    let rest = insert_sorted v xs in if ltb_ℤ v x then v ∷ x ∷ xs else x ∷ rest

pub insert_sorted-left :
    (v x : ℤ) (xs ys : List ℤ)
    → ltb_ℤ v x ≡ true
    → insert_sorted v (xs ++ (x ∷ ys)) ≡ insert_sorted v xs ++ (x ∷ ys)
unfolding insert_sorted
insert_sorted-left v x [] ys e = rw e refl
insert_sorted-left v x (y ∷ xs) ys e = elim (Bool-cases (ltb_ℤ v y)) [
  | inl s ↦ rw s refl
  | inr s ↦ rw s (ap (λ zs. y ∷ zs) (insert_sorted-left v x xs ys e))
]

pub insert_sorted-right :
    (v x : ℤ) (xs ys : List ℤ)
    → All (λ y. y ≤ℤ x) xs
    → ltb_ℤ v x ≡ false
    → insert_sorted v (xs ++ (x ∷ ys)) ≡ xs ++ (x ∷ insert_sorted v ys)
unfolding insert_sorted
insert_sorted-right v x [] ys a e = rw e refl
insert_sorted-right v x (y ∷ xs) ys a e =
    let s : ltb_ℤ v y ≡ false = ground (arith, a.0, e) in
    rw s (ap (λ zs. y ∷ zs) (insert_sorted-right v x xs ys a.1 e))

pub IsAscending-parts :
    (xs : List ℤ) (x : ℤ) (ys : List ℤ)
    → IsAscending (xs ++ (x ∷ ys))
    → IsAscending xs × All (λ y. y ≤ℤ x) xs × IsAscending ys
IsAscending-parts [] x ys h = (tt, tt, h.1)
IsAscending-parts (z ∷ xs) x ys h =
    let (a, b, c) = IsAscending-parts xs x ys h.1 in
    let (d, e) = All-split (λ y. z ≤ℤ y) xs (x ∷ ys) h.0 in ((d, a), (e.0, b), c)

insert_sorted-All :
    (P : ℤ → Type 0) (v : ℤ) (xs : List ℤ) → P v → All P xs → All P (insert_sorted v xs)
unfolding insert_sorted
insert_sorted-All P v [] p a = (p, tt)
insert_sorted-All P v (x ∷ xs) p a = elim (Bool-cases (ltb_ℤ v x)) [
  | inl e ↦ rw e (p, a)
  | inr e ↦ rw e (a.0, insert_sorted-All P v xs p a.1)
]

All-le : (v x : ℤ) (xs : List ℤ) → v ≤ℤ x → All (λ y. x ≤ℤ y) xs → All (λ y. v ≤ℤ y) xs
All-le v x [] h a = tt
All-le v x (y ∷ xs) h a = (omega (arith, h, a.0), All-le v x xs h a.1)

pub insert_sorted-IsAscending :
    (v : ℤ) (xs : List ℤ) → IsAscending xs → IsAscending (insert_sorted v xs)
unfolding insert_sorted
insert_sorted-IsAscending v [] h = (tt, tt)
insert_sorted-IsAscending v (x ∷ xs) h = elim (Bool-cases (ltb_ℤ v x)) [
  | inl e ↦ rw e ((ground (arith, e), All-le v x xs (ground (arith, e)) h.0), h)
  | inr e ↦ rw e (
    insert_sorted-All (λ y. x ≤ℤ y) v xs (ground (arith, e)) h.0,
    insert_sorted-IsAscending v xs h.1,
  )
]

pub blacken-contents : (t : Tree) → contents (blacken t) ≡ contents t
unfolding contents
blacken-contents leaf = refl
blacken-contents (node l v c s r) = refl

pub blacken-IsSized : (t : Tree) → IsSized t → IsSized (blacken t)
blacken-IsSized leaf h = tt
blacken-IsSized (node l v c s r) h = h

pub is_red-blacken : (t : Tree) → is_red (blacken t) ≡ false
is_red-blacken leaf = refl
is_red-blacken (node l v c s r) = refl
