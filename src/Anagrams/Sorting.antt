-- ===== src/Anagrams/Sorting.antt =====
-- 49.c: sortString sorts, so two strings with the same letters have the same key.
use leetcode.Base.{
  ℕ, zero, suc, ◌+◌, ◌-◌, ◌≤◌, ◌<◌, ◌≡◌, refl, ap, sym, ◌∙◌, [], ◌∷◌, ltb, ◌==◌, if◌then◌else◌,
  length, get_or, set, CString, arith, All, ◌↔◌, length-set, get_or-set_self, get_or-set_ne,
}
use leetcode.Anagrams.{char_rank, order_at, inner_loop, outer_loop, sort_string}

-- How often a byte stands in a string.
unfoldable pub count : ℕ → CString → ℕ
count c [] = 0
count c (d ∷ s) = (if d == c then 1 else 0) + count c s

count-set :
    (c : ℕ) (s : CString) (i v : ℕ)
    → i < length s
    → count c (set s i v) + (if get_or s i 0 == c then 1 else 0)
      ≡ count c s + (if v == c then 1 else 0)
unfolding count
count-set c [] i v h = elim h [ ]
count-set c (d ∷ s) zero v h = omega arith
count-set c (d ∷ s) (suc i) v h = omega (arith, count-set c s i v (omega arith))

at-set :
    (s : CString) (i v k : ℕ)
    → i < length s
    → get_or (set s i v) k 0 ≡ (if k == i then v else get_or s k 0)
at-set s i v k h = ground (arith, get_or-set_self s i v 0, get_or-set_ne s i k v 0)

-- Up to `i` every byte is at most those behind it.
record IsOrdered (s : CString) (i : ℕ) : Type 0 where
  ordered :
      (a b : ℕ) → a < i → a ≤ b → b < length s → char_rank (get_or s a 0) ≤ char_rank (get_or s b 0)

-- And the byte at `i` at most those before `j`.
record IsLeast (s : CString) (i j : ℕ) : Type 0 where
  least : (b : ℕ) → i ≤ b → b < j → char_rank (get_or s i 0) ≤ char_rank (get_or s b 0)

module _ (s : CString) (i j : ℕ) (before : i < j) (inside : j < length s) where
  order_at-at :
      (k : ℕ)
      → get_or (order_at s i j) k 0 ≡ (
          if ltb (char_rank (get_or s j 0)) (char_rank (get_or s i 0))
          then (if k == j then get_or s i 0 else if k == i then get_or s j 0 else get_or s k 0)
          else get_or s k 0)
  unfolding order_at
  order_at-at k = ground (
    arith,
    at-set s i (get_or s j 0) k,
    length-set s i (get_or s j 0),
    at-set (set s i (get_or s j 0)) j (get_or s i 0) k,
  )

  length-order_at : length (order_at s i j) ≡ length s
  unfolding order_at
  length-order_at =
      ground
        (arith, length-set s i (get_or s j 0), length-set (set s i (get_or s j 0)) j (get_or s i 0))

  count-order_at : (c : ℕ) → count c (order_at s i j) ≡ count c s
  unfolding order_at
  count-order_at c = ground (
    arith,
    count-set c s i (get_or s j 0),
    at-set s i (get_or s j 0) j,
    length-set s i (get_or s j 0),
    count-set c (set s i (get_or s j 0)) j (get_or s i 0),
  )

  module _ (o : IsOrdered s i) (l : IsLeast s i j) where
    order_at-IsLeast : IsLeast (order_at s i j) i (j + 1)
    order_at-IsLeast = record {
      least = λ b p q. ground (arith, order_at-at i, order_at-at b, l.least b);
    }

    order_at-IsOrdered : IsOrdered (order_at s i j) i
    order_at-IsOrdered = record {
      ordered = λ a b p q r. ground (
        arith,
        length-order_at,
        order_at-at a,
        order_at-at b,
        o.ordered a b,
        o.ordered a i,
        o.ordered a j,
      );
    }

-- What a run of loops keeps: the letters and the length.
record IsSame (s t : CString) : Type 0 where
  counts : (c : ℕ) → count c t ≡ count c s
  lengths : length t ≡ length s

inner_lem :
    (rounds : ℕ) (s : CString) (i j : ℕ)
    → i < j
    → j + rounds ≡ length s
    → IsOrdered s i
    → IsLeast s i j
    → let t = inner_loop rounds s i j in IsSame s t × IsOrdered t i × IsLeast t i (length s)
unfolding inner_loop
inner_lem zero s i j h e o l = (
  record { counts = λ c. refl; lengths = refl },
  o,
  record { least = λ b p q. l.least b p (omega arith) },
)
inner_lem (suc rounds) s i j h e o l =
    let inside : j < length s = omega arith in
    let t = order_at s i j in
    let len = length-order_at s i j h inside in
    let (same, ordered, least) =
      inner_lem rounds (order_at s i j) i (j + 1) (omega arith) (omega (arith, len))
        (order_at-IsOrdered s i j h inside o l) (order_at-IsLeast s i j h inside o l) in
    (
      record {
        counts = λ c. same.counts c ∙ count-order_at s i j h inside c;
        lengths = same.lengths ∙ len;
      },
      ordered,
      record { least = λ b p q. least.least b p (omega (arith, len)) },
    )

outer_lem :
    (rounds : ℕ) (s : CString) (len i : ℕ)
    → len ≡ length s
    → i + rounds + 1 ≡ len
    → IsOrdered s i
    → let t = outer_loop rounds s len i in IsSame s t × IsOrdered t len
unfolding outer_loop
outer_lem zero s len i n e o = (
  record { counts = λ c. refl; lengths = refl },
  record { ordered = λ a b p q r. ground (arith, o.ordered a b) },
)
outer_lem (suc rounds) s len i n e o =
    let (same, ordered, least) =
      inner_lem (len - (i + 1)) s i (i + 1) (omega arith) (omega arith) o
        (record { least = λ b p q. ground arith }) in
    let t = inner_loop (len - (i + 1)) s i (i + 1) in
    let next : IsOrdered t (i + 1) = record {
      ordered = λ a b p q r. ground (arith, same.lengths, ordered.ordered a b, least.least b);
    } in
    let (same', done) =
      outer_lem rounds t len (i + 1) (omega (arith, same.lengths)) (omega arith) next in
    (
      record {
        counts = λ c. same'.counts c ∙ same.counts c;
        lengths = same'.lengths ∙ same.lengths;
      },
      done,
    )

abbrev pub IsSorted : CString → Type 0
IsSorted [] = Unit
IsSorted (c ∷ s) = All (λ d. char_rank c ≤ char_rank d) s × IsSorted s

All-get : (P : ℕ → Type 0) (s : CString) → ((k : ℕ) → k < length s → P (get_or s k 0)) → All P s
All-get P [] h = tt
All-get P (c ∷ s) h = (h 0 (omega arith), All-get P s (λ k lt. h (suc k) (omega arith)))

ordered-IsSorted :
    (s : CString)
    → ((a b : ℕ) → a ≤ b → b < length s → char_rank (get_or s a 0) ≤ char_rank (get_or s b 0))
    → IsSorted s
ordered-IsSorted [] h = tt
ordered-IsSorted (c ∷ s) h = (
  All-get (λ d. char_rank c ≤ char_rank d) s (λ k lt. h 0 (suc k) (omega arith) (omega arith)),
  ordered-IsSorted s (λ a b le lt. h (suc a) (suc b) (omega arith) (omega arith)),
)

-- sortString returns the bytes of its argument, each as often, in rising order of their values as `char`.
pub sort_string_lem :
    (s : CString) → IsSorted (sort_string s) × ((c : ℕ) → count c (sort_string s) ≡ count c s)
unfolding sort_string
sort_string_lem [] = (tt, λ c. refl)
sort_string_lem (c ∷ s) =
    let (same, done) =
      outer_lem (length (c ∷ s) - 1) (c ∷ s) (length (c ∷ s)) 0 refl (omega arith)
        (record { ordered = λ a b p q r. absurd (omega arith) }) in
    let t = outer_loop (length (c ∷ s) - 1) (c ∷ s) (length (c ∷ s)) 0 in
    (
      ordered-IsSorted t (λ a b le lt. done.ordered a b (omega (arith, same.lengths)) le lt),
      same.counts,
    )

count-least :
    (c d : ℕ) (s : CString)
    → All (λ e. char_rank c ≤ char_rank e) s
    → 0 < count d s
    → char_rank c ≤ char_rank d
unfolding count
count-least c d [] a h = absurd (omega arith)
count-least c d (e ∷ s) a h = ground (arith, a.0, count-least c d s a.1)

abbrev pub IsBytes : CString → Type 0
IsBytes = All (λ c. c < 256)

count-IsBytes : (c : ℕ) (s : CString) → IsBytes s → 0 < count c s → c < 256
unfolding count
count-IsBytes c [] a h = absurd (omega (arith, h))
count-IsBytes c (d ∷ s) a h = ground (arith, a.0, h, count-IsBytes c s a.1)

IsBytes-of_counts : (s : CString) → ((c : ℕ) → 0 < count c s → c < 256) → IsBytes s
unfolding count
IsBytes-of_counts [] h = tt
IsBytes-of_counts (c ∷ s) h =
    (ground (arith, h c), IsBytes-of_counts s (λ d p. h d (omega (arith, p))))

pub sort_string-IsBytes : (s : CString) → IsBytes s → IsBytes (sort_string s)
sort_string-IsBytes s a =
    IsBytes-of_counts (sort_string s)
      (λ c p. count-IsBytes c s a (omega (arith, p, (sort_string_lem s).1 c)))

-- A sorted string is known by its letters.
pub sorted_unique :
    (s t : CString)
    → IsBytes s
    → IsBytes t
    → IsSorted s
    → IsSorted t
    → ((c : ℕ) → count c s ≡ count c t)
    → s ≡ t
unfolding count
sorted_unique [] [] a b p q h = refl
sorted_unique [] (d ∷ t) a b p q h = absurd (ground (arith, h d))
sorted_unique (c ∷ s) [] a b p q h = absurd (ground (arith, h c))
sorted_unique (c ∷ s) (d ∷ t) a b p q h =
    let low : char_rank c ≤ char_rank d = ground (arith, h c, h d, count-least c d s p.0) in
    let high : char_rank d ≤ char_rank c = ground (arith, h c, h d, count-least d c t q.0) in
    let same : c ≡ d = omega (arith, low, high, a.0, b.0) in
    let rest : s ≡ t = sorted_unique s t a.1 b.1 p.1 q.1 (λ e. ground (arith, h e, same)) in
    rw (same, rest) refl

-- Two strings have the same key exactly if every byte stands equally often in both.
pub sort_string_iff :
    (s t : CString)
    → IsBytes s
    → IsBytes t
    → (sort_string s ≡ sort_string t) ↔ ((c : ℕ) → count c s ≡ count c t)
sort_string_iff s t a b =
    let (sorted_s, same_s) = sort_string_lem s in
    let (sorted_t, same_t) = sort_string_lem t in
    (
      λ e c. sym (same_s c) ∙ ap (count c) e ∙ same_t c,
      λ h.
          sorted_unique (sort_string s) (sort_string t) (sort_string-IsBytes s a)
            (sort_string-IsBytes t b) sorted_s sorted_t (λ c. same_s c ∙ h c ∙ sym (same_t c)),
    )
