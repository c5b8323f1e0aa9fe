-- ===== src/UrlShortener/Decode.antt =====
-- 535.c: decode undoes encode.
use leetcode.Base.{
  ℕ, zero, suc, ◌+◌, ◌*◌, ◌/◌, ◌%◌, ◌<◌, ◌≡◌, refl, ap, sym, ◌∙◌, true, false, some, List, [], ◌∷◌,
  ◌++◌, arith, leb, ◌==◌, length, get_elem?, drop, CString, decimal, decimal_from, length-append,
  Bool-cases, inl, inr,
}
use mathlib.Core.List.{append-nil, append_assoc}
use leetcode.Base.Int.{ℤ, pos}
use leetcode.UrlShortener.{
  base_url, max_urls, Store, encode, is_digit, digits, number, signed, sscanf_int, stored, decoded,
  decode,
}

abbrev tens : ℕ → ℕ
tens zero = 1
tens (suc n) = tens n * 10

digits-decimal_from :
    (fuel n : ℕ) (rest : CString)
    → n < tens fuel
    → digits 0 (decimal_from fuel n rest) ≡ digits n rest
unfolding decimal_from digits is_digit
digits-decimal_from zero n rest h = ap (λ k. digits k rest) (omega arith)
digits-decimal_from (suc fuel) n rest h =
    ground (arith, digits-decimal_from fuel (n / 10) ((b'0' + n % 10) ∷ rest))

-- What "%d" prints begins with a digit.
decimal_from-digit :
    (fuel n : ℕ) (rest : CString)
    → (c : ℕ) × (cs : CString) × (decimal_from (suc fuel) n rest ≡ c ∷ cs) × (is_digit c ≡ true)
unfolding decimal_from is_digit
decimal_from-digit zero n rest = (b'0' + n % 10, rest, ground arith, ground arith)
decimal_from-digit (suc fuel) n rest = elim (Bool-cases (n / 10 == 0)) [
  | inl e ↦ (b'0' + n % 10, rest, rw e refl, ground arith)
  | inr e ↦
      let (c, cs, same, digit) = decimal_from-digit fuel (n / 10) ((b'0' + n % 10) ∷ rest) in
      (c, cs, rw e same, digit)
]

-- Before a digit there is no white space and no sign.
sscanf_int-digit :
    (c : ℕ) (cs : CString)
    → is_digit c ≡ true
    → sscanf_int (c ∷ cs) ≡ some (pos (digits 0 (c ∷ cs)))
unfolding sscanf_int signed number is_digit
sscanf_int-digit c cs h = ground arith

sscanf_int-decimal : (n : ℕ) → n < 10_000_000_000 → sscanf_int (decimal n) ≡ some (pos n)
unfolding decimal
sscanf_int-decimal n h =
    let (c, cs, same, digit) = decimal_from-digit 9 n [] in
    let value : digits 0 (c ∷ cs) ≡ n =
      ap (digits 0) (sym same)
      ∙ digits-decimal_from 10 n [] (omega arith)
      ∙ (unfold digits in refl) in
    ap sscanf_int same ∙ sscanf_int-digit c cs digit ∙ ap (λ k. some (pos k)) value

drop-append : (xs ys : CString) → drop (length xs) (xs ++ ys) ≡ ys
drop-append [] ys = refl
drop-append (x ∷ xs) ys = ground (arith, drop-append xs ys)

unfoldable pub encode_all : Store → List CString → Store
encode_all s [] = s
encode_all s (url ∷ urls) = encode_all (encode s url).1 urls

-- The count is the number of the stored URLs.
abbrev pub IsCounted : Store → Type 0
IsCounted s = s.url_count ≡ length s.stored_urls

encode-IsCounted : (s : Store) (url : CString) → IsCounted s → IsCounted (encode s url).1
unfolding encode
encode-IsCounted s url w = ground (arith, w, length-append s.stored_urls (url ∷ []))

encode-stored :
    (s : Store) (url : CString)
    → (xs : List CString) × ((encode s url).1.stored_urls ≡ s.stored_urls ++ xs)
encode-stored s url = elim (Bool-cases (leb max_urls s.url_count)) [
  | inl e ↦ ([], unfold encode in rw e (sym (append-nil s.stored_urls)))
  | inr e ↦ (url ∷ [], unfold encode in rw e refl)
]

encode_all-IsCounted :
    (s : Store) (urls : List CString) → IsCounted s → IsCounted (encode_all s urls)
unfolding encode_all
encode_all-IsCounted s [] w = w
encode_all-IsCounted s (url ∷ urls) w =
    encode_all-IsCounted (encode s url).1 urls (encode-IsCounted s url w)

encode_all-stored :
    (s : Store) (urls : List CString)
    → (xs : List CString) × ((encode_all s urls).stored_urls ≡ s.stored_urls ++ xs)
unfolding encode_all
encode_all-stored s [] = ([], sym (append-nil s.stored_urls))
encode_all-stored s (url ∷ urls) =
    let (xs, e) = encode-stored s url in
    let (ys, f) = encode_all-stored (encode s url).1 urls in
    (xs ++ ys, f ∙ ap (λ zs. zs ++ ys) e ∙ append_assoc s.stored_urls xs ys)

get_elem?-middle :
    (xs : List CString) (x : CString) (ys : List CString)
    → get_elem? (xs ++ x ∷ ys) (length xs) ≡ some x
get_elem?-middle [] x ys = refl
get_elem?-middle (z ∷ xs) x ys = ground (arith, get_elem?-middle xs x ys)

stored-url :
    (s : Store) (id : ℕ) (url : CString) (xs ys : List CString)
    → IsCounted s
    → id ≡ length xs
    → s.stored_urls ≡ xs ++ url ∷ ys
    → stored s (pos id) ≡ some url
unfolding stored
stored-url s id url xs ys w place e = ground (
  arith,
  w,
  ap length e,
  length-append xs (url ∷ ys),
  ap (λ zs. get_elem? zs id) e,
  get_elem?-middle xs url ys,
)

-- While the count is the number of stored URLs and below 10000, encode returns a short URL, from
-- which decode returns the URL itself, however many URLs are encoded in between.
pub decode-encode :
    (s : Store) (url : CString) (more : List CString) (unset : ℤ)
    → IsCounted s
    → s.url_count < max_urls
    → (short : CString) × ((encode s url).0 ≡ some short)
      × (decode (encode_all (encode s url).1 more) unset short ≡ some url)
decode-encode s url more unset w room =
    let new = encode_all (encode s url).1 more in
    let free : leb max_urls s.url_count ≡ false = ground arith in
    let added : (encode s url).1.stored_urls ≡ s.stored_urls ++ url ∷ [] =
      unfold encode in rw free refl in
    let (ys, e) = encode_all-stored (encode s url).1 more in
    let all : new.stored_urls ≡ s.stored_urls ++ url ∷ ys =
      e ∙ ap (λ zs. zs ++ ys) added ∙ append_assoc s.stored_urls (url ∷ []) ys in
    let found : stored new (pos s.url_count) ≡ some url =
      stored-url new s.url_count url s.stored_urls ys
        (encode_all-IsCounted (encode s url).1 more (encode-IsCounted s url w)) w all in
    let id : sscanf_int (drop (length base_url) (base_url ++ decimal s.url_count))
        ≡ some (pos s.url_count) =
      ap sscanf_int (drop-append base_url (decimal s.url_count))
      ∙ sscanf_int-decimal s.url_count (omega arith) in
    (
      base_url ++ decimal s.url_count,
      unfold encode in rw free refl,
      unfold decode in (ap (decoded new unset) id ∙ found),
    )
