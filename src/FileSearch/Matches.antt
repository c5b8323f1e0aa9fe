-- ===== src/FileSearch/Matches.antt =====
-- Memory_Mapped_File.c: the offsets are those at which the keyword stands.
use leetcode.Base.{
  ℕ, zero, suc, ◌+◌, ◌≤◌, ◌<◌, ◌≡◌, ◌↔◌, refl, ap, sym, ◌∙◌, Bool, true, false, ◌&&◌, none, some,
  List, [], ◌∷◌, ◌++◌, leb, ◌==◌, if◌then◌else◌, length, drop, CString, arith, All, Bool-cases, inl,
  inr, length-append,
}
use leetcode.FileSearch.{memcmp_is_0, search_loop, search_keyword}

-- The keyword stands in the file behind `i` bytes.
abbrev pub Occurs : List ℕ → CString → ℕ → Type 0
Occurs file keyword i =
    (before after : List ℕ) × (file ≡ before ++ (keyword ++ after)) × (length before ≡ i)

abbrev pub has : ℕ → List ℕ → Bool
has i [] = false
has i (j ∷ js) = if j == i then true else has i js

memcmp-append :
    (bytes : List ℕ) (keyword : CString)
    → memcmp_is_0 bytes keyword ≡ true
    → (after : List ℕ) × (bytes ≡ keyword ++ after)
unfolding memcmp_is_0
memcmp-append bytes [] h = (bytes, refl)
memcmp-append [] (k ∷ ks) h = absurd (cc)
memcmp-append (b ∷ bs) (k ∷ ks) h =
    let (after, e) = memcmp-append bs ks (ground arith) in
    let same : b ≡ k = ground arith in (after, rw (same, e) refl)

memcmp_self : (keyword after : List ℕ) → memcmp_is_0 (keyword ++ after) keyword ≡ true
unfolding memcmp_is_0
memcmp_self [] after = refl
memcmp_self (k ∷ ks) after = ground (arith, memcmp_self ks after)

drop-length : (xs ys : List ℕ) → drop (length xs) (xs ++ ys) ≡ ys
drop-length [] ys = refl
drop-length (x ∷ xs) ys = drop-length xs ys

split_at :
    (i : ℕ) (file : List ℕ)
    → i ≤ length file
    → (before : List ℕ) × (file ≡ before ++ drop i file) × (length before ≡ i)
split_at zero file h = ([], refl, refl)
split_at (suc i) [] h = absurd (omega arith)
split_at (suc i) (b ∷ file) h =
    let (before, e, n) = split_at i file (omega arith) in
    (b ∷ before, ap (λ xs. b ∷ xs) e, ap suc n)

-- The test of the loop.
abbrev matches : List ℕ → CString → ℕ → Bool
matches file keyword i = leb (i + length keyword) (length file) && memcmp_is_0 (drop i file) keyword

matches_iff :
    (file : List ℕ) (keyword : CString) (i : ℕ)
    → (matches file keyword i ≡ true) ↔ Occurs file keyword i
matches_iff file keyword i = (to, from)
  where
    to : matches file keyword i ≡ true → Occurs file keyword i
    to h =
        let (before, e, n) = split_at i file (ground arith) in
        let (after, f) = memcmp-append (drop i file) keyword (ground arith) in
        (before, after, e ∙ ap (λ ys. before ++ ys) f, n)

    from : Occurs file keyword i → matches file keyword i ≡ true
    from (before, after, e, n) =
        let at : drop i file ≡ keyword ++ after =
          rw (sym n, e) (drop-length before (keyword ++ after)) in
        rw at (
          ground (
            arith,
            memcmp_self keyword after,
            ap length e,
            length-append before (keyword ++ after),
            length-append keyword after,
          ))

-- The loop prints the offsets from `i` on that match.
has-search_loop :
    (rounds : ℕ) (file : List ℕ) (keyword : CString) (i k : ℕ)
    → length file < rounds + i
    → has k (search_loop rounds file keyword i)
      ≡ (if leb i k then matches file keyword k else false)
unfolding search_loop
has-search_loop zero file keyword i k h = ground arith
has-search_loop (suc rounds) file keyword i k h =
    ground (arith, has-search_loop rounds file keyword (i + 1) k)

abbrev pub IsRising : List ℕ → Type 0
IsRising [] = Unit
IsRising (i ∷ is) = All (λ j. i < j) is × IsRising is

All-weaken :
    (i : ℕ) (js : List ℕ) → All (λ j. i + 1 ≤ j) js → All (λ j. i < j) js × All (λ j. i ≤ j) js
All-weaken i [] h = (tt, tt)
All-weaken i (j ∷ js) h = let (a, b) = All-weaken i js h.1 in ((omega arith, a), (omega arith, b))

search_loop-IsRising :
    (rounds : ℕ) (file : List ℕ) (keyword : CString) (i : ℕ)
    → IsRising (search_loop rounds file keyword i)
      × All (λ j. i ≤ j) (search_loop rounds file keyword i)
unfolding search_loop
search_loop-IsRising zero file keyword i = (tt, tt)
search_loop-IsRising (suc rounds) file keyword i =
    let (rise, above) = search_loop-IsRising rounds file keyword (i + 1) in
    let (below, same) = All-weaken i (search_loop rounds file keyword (i + 1)) above in
    elim (Bool-cases (leb (i + length keyword) (length file))) [
      | inl e ↦ elim (Bool-cases (memcmp_is_0 (drop i file) keyword)) [
        | inl f ↦ rw (e, f) ((below, rise), (omega arith, same))
        | inr f ↦ rw (e, f) (rise, same)
      ]
      | inr e ↦ rw e (tt, tt)
    ]

-- search_keyword prints exactly the offsets at which the keyword stands in the file, each once and
-- in rising order, and then their number, or that there is none.
pub search_keyword_lem :
    (file : List ℕ) (keyword : CString)
    → let found = search_keyword file keyword in
      ((i : ℕ) → (has i found.offsets ≡ true) ↔ Occurs file keyword i)
      × IsRising found.offsets
      × (found.total ≡ (if length found.offsets == 0 then none else some (length found.offsets)))
unfolding search_keyword
search_keyword_lem file keyword = (
  λ i.
      let e = has-search_loop (length file + 1) file keyword 0 i (omega arith) in
      let (to, from) = matches_iff file keyword i in
      (λ h. to (ground (arith, e)), λ o. ground (arith, e, from o)),
  (search_loop-IsRising (length file + 1) file keyword 0).0,
  refl,
)
