-- ===== src/UrlShortener/Tests.antt =====
-- 535.c: the second of three URLs.
use leetcode.Base.{◌≡◌, refl, some, [], ◌∷◌, CString, arith}
use leetcode.Base.Int.{pos, negsuc}
use leetcode.UrlShortener.{Store, encode, decode, sscanf_int, signed, number, digits, is_digit}
use leetcode.UrlShortener.Decode.{encode_all, decode-encode}

abbrev first_stored : Store
first_stored = record { stored_urls = (1 ∷ []) ∷ []; url_count = 1 }

decode-encode_example :
    (short : CString) × ((encode first_stored (2 ∷ [])).0 ≡ some short)
    × (decode (encode_all (encode first_stored (2 ∷ [])).1 ((3 ∷ []) ∷ [])) (pos 7) short
        ≡ some (2 ∷ []))
decode-encode_example =
    decode-encode first_stored (2 ∷ []) ((3 ∷ []) ∷ []) (pos 7) refl (omega arith)

scan_negative : sscanf_int (32 ∷ 45 ∷ b'4' ∷ b'2' ∷ b'x' ∷ []) ≡ some (negsuc 41)
unfolding sscanf_int signed number digits is_digit
scan_negative = refl
