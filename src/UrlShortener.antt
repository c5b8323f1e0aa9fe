-- ===== src/UrlShortener.antt =====
-- 535.c: a URL shortener. The stored URLs are a list, in the order of their ids; strdup and malloc
-- are taken to succeed.
pub mod Decode
mod Tests
use leetcode.Base.{
  ℕ, zero, suc, ◌+◌, ◌-◌, ◌*◌, Bool, true, false, ◌&&◌, ◌||◌, Option, none, some, List, [], ◌∷◌,
  ◌++◌, ltb, leb, ◌==◌, if◌then◌else◌, length, get_elem?, drop, CString, decimal,
}
use leetcode.Base.Int.{ℤ, pos, sub_ℕ}

abbrev pub base_url : CString
base_url =
    b'h' ∷ b't' ∷ b't' ∷ b'p' ∷ 58 ∷ 47 ∷ 47 ∷ b't' ∷ b'i' ∷ b'n' ∷ b'y' ∷ b'u' ∷ b'r' ∷ b'l' ∷ 46
    ∷ b'c' ∷ b'o' ∷ b'm' ∷ 47 ∷ []

abbrev pub max_urls : ℕ
max_urls = 10_000

pub record Store : Type 0 where
  pub stored_urls : List CString
  pub url_count : ℕ

abbrev pub start : Store
start = record { stored_urls = []; url_count = 0 }

unfoldable pub encode : Store → CString → Option CString × Store
encode s long_url = if leb max_urls s.url_count then (none, s) else (
  some (base_url ++ decimal s.url_count),
  record { stored_urls = s.stored_urls ++ long_url ∷ []; url_count = s.url_count + 1 },
)

-- sscanf with "%d": white space, a sign and digits are read, up to the first other byte. Without a
-- digit nothing is stored.
unfoldable pub is_digit : ℕ → Bool
is_digit c = leb b'0' c && leb c b'9'

unfoldable pub digits : ℕ → CString → ℕ
digits value [] = value
digits value (c ∷ cs) =
    let rest = digits (value * 10 + (c - b'0')) cs in if is_digit c then rest else value

unfoldable pub number : CString → Option ℕ
number [] = none
number (c ∷ cs) = if is_digit c then some (digits 0 (c ∷ cs)) else none

unfoldable pub signed : CString → Option ℤ
signed [] = none
signed (c ∷ cs) =
    if c == 45
    then elim (number cs) [ none ↦ none | some n ↦ some (sub_ℕ 0 n) ]
    else elim (number (if c == 43 then cs else c ∷ cs)) [ none ↦ none | some n ↦ some (pos n) ]

unfoldable pub sscanf_int : CString → Option ℤ
sscanf_int [] = none
sscanf_int (c ∷ cs) =
    let rest = sscanf_int cs in if c == 32 || leb 9 c && leb c 13 then rest else signed (c ∷ cs)

-- The end of decode. A short URL is at least as long as the base URL.
unfoldable pub stored : Store → ℤ → Option CString
stored s (pos id) = if leb s.url_count id then none else get_elem? s.stored_urls id
stored s _ = none

-- `unset` is the value that `id` happens to have if sscanf stores none.
unfoldable pub decoded : Store → (unset : ℤ) → Option ℤ → Option CString
unfolding stored
decoded s unset none = stored s unset
decoded s unset (some id) = stored s id

unfoldable pub decode : Store → (unset : ℤ) → (short_url : CString) → Option CString
unfolding decoded
decode s unset short_url = decoded s unset (sscanf_int (drop (length base_url) short_url))
