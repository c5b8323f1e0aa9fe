-- ===== src/Anagrams/Keys.antt =====
-- 49.c: the bucket of a string, by a sort and a sum of its own.
use leetcode.Base.{
  ℕ, ◌+◌, ◌*◌, ◌%◌, ◌^◌, ◌≤◌, ◌<◌, ◌≡◌, refl, ap, sym, ◌∙◌, [], ◌∷◌, leb, ◌==◌, if◌then◌else◌,
  CString, arith, All, Bool-cases, inl, inr,
}
use leetcode.Anagrams.{char_rank, widened, hash_from, hash, sort_string, table_size}
use leetcode.Anagrams.Sorting.{
  count, IsSorted, IsBytes, sort_string_lem, sort_string-IsBytes, sorted_unique, sort_string_iff,
}

-- A byte in its place among sorted ones.
unfoldable pub insert_byte : ℕ → CString → CString
insert_byte c [] = c ∷ []
insert_byte c (d ∷ s) =
    let rest = insert_byte c s in if leb (char_rank c) (char_rank d) then c ∷ d ∷ s else d ∷ rest

-- The bytes of a string in the order of their values as `char`.
unfoldable pub letters : CString → CString
unfolding insert_byte
letters [] = []
letters (c ∷ s) = insert_byte c (letters s)

count-insert_byte :
    (e c : ℕ) (s : CString) → count e (insert_byte c s) ≡ (if c == e then 1 else 0) + count e s
unfolding count insert_byte
count-insert_byte e c [] = refl
count-insert_byte e c (d ∷ s) = ground (arith, count-insert_byte e c s)

count-letters : (e : ℕ) (s : CString) → count e (letters s) ≡ count e s
unfolding count letters
count-letters e [] = refl
count-letters e (c ∷ s) = omega (arith, count-insert_byte e c (letters s), count-letters e s)

insert_byte-All : (P : ℕ → Type 0) (c : ℕ) (s : CString) → P c → All P s → All P (insert_byte c s)
unfolding insert_byte
insert_byte-All P c [] p a = (p, tt)
insert_byte-All P c (d ∷ s) p a = elim (Bool-cases (leb (char_rank c) (char_rank d))) [
  | inl e ↦ rw e (p, a)
  | inr e ↦ rw e (a.0, insert_byte-All P c s p a.1)
]

All-char_rank :
    (c d : ℕ) (s : CString)
    → char_rank c ≤ char_rank d
    → All (λ e. char_rank d ≤ char_rank e) s
    → All (λ e. char_rank c ≤ char_rank e) s
All-char_rank c d [] h a = tt
All-char_rank c d (e ∷ s) h a = (omega (arith, h, a.0), All-char_rank c d s h a.1)

insert_byte-IsSorted : (c : ℕ) (s : CString) → IsSorted s → IsSorted (insert_byte c s)
unfolding insert_byte
insert_byte-IsSorted c [] h = (tt, tt)
insert_byte-IsSorted c (d ∷ s) h = elim (Bool-cases (leb (char_rank c) (char_rank d))) [
  | inl e ↦ rw e (
      let le : char_rank c ≤ char_rank d = ground (arith, e) in
      ((le, All-char_rank c d s le h.0), h))
  | inr e ↦ rw e (
    insert_byte-All (λ x. char_rank d ≤ char_rank x) c s (ground (arith, e)) h.0,
    insert_byte-IsSorted c s h.1,
  )
]

letters-IsSorted : (s : CString) → IsSorted (letters s)
unfolding letters
letters-IsSorted [] = tt
letters-IsSorted (c ∷ s) = insert_byte-IsSorted c (letters s) (letters-IsSorted s)

letters-IsBytes : (s : CString) → IsBytes s → IsBytes (letters s)
unfolding letters
letters-IsBytes [] a = tt
letters-IsBytes (c ∷ s) a = insert_byte-All (λ d. d < 256) c (letters s) a.0 (letters-IsBytes s a.1)

sort_string-letters : (s : CString) → IsBytes s → sort_string s ≡ letters s
sort_string-letters s a =
    sorted_unique (sort_string s) (letters s) (sort_string-IsBytes s a) (letters-IsBytes s a)
      (sort_string_lem s).0 (letters-IsSorted s)
      (λ c. (sort_string_lem s).1 c ∙ sym (count-letters c s))

-- The sum 33 * (... (33 * h + c) ...) + d, without a bound.
unfoldable pub weighted : (h : ℕ) → CString → ℕ
weighted h [] = h
weighted h (c ∷ s) = weighted (33 * h + widened c) s

hash_from-weighted :
    (h g : ℕ) (s : CString) → h ≡ g % 2 ^ 64 → hash_from h s ≡ weighted g s % 2 ^ 64
unfolding hash_from weighted
hash_from-weighted h g [] e = e
hash_from-weighted h g (c ∷ s) e =
    hash_from-weighted ((h * 32 % 2 ^ 64 + h + widened c) % 2 ^ 64) (33 * g + widened c) s
      (omega (arith, e))

-- The bucket of a string: the weighted sum of its sorted bytes, from 5381 on, in 64 bits, modulo the
-- size of the table.
unfoldable pub key_bucket : CString → ℕ
key_bucket s = weighted 5381 (letters s) % 2 ^ 64 % 1007

pub hash-key_bucket : (s : CString) → IsBytes s → hash (sort_string s) ≡ key_bucket s
unfolding hash key_bucket
hash-key_bucket s a =
    ap (λ n. n % table_size)
      (ap (hash_from 5381) (sort_string-letters s a)
        ∙ hash_from-weighted 5381 5381 (letters s) (omega arith))

-- Strings with the same bytes have one bucket.
pub key_bucket_same :
    (s t : CString)
    → IsBytes s
    → IsBytes t
    → ((c : ℕ) → count c s ≡ count c t)
    → key_bucket s ≡ key_bucket t
key_bucket_same s t a b h =
    sym (hash-key_bucket s a) ∙ ap hash ((sort_string_iff s t a b).1 h) ∙ hash-key_bucket t b
