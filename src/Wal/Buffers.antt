-- ===== src/Wal/Buffers.antt =====
-- Wal.c: lines that fit the buffer of MAX_LINE bytes.
use leetcode.Base.{
  ℕ, zero, suc, ◌≤◌, ◌<◌, ◌≡◌, ◌≢◌, ◌⊎◌, inl, inr, refl, ap, ◌∙◌, Bool, true, false, none, some,
  List, [], ◌∷◌, ◌++◌, arith, All, length, take, CString, ◌==◌,
}
use leetcode.Wal.{
  snprintf, push_byte, split_lines, append_lines, fgets, read_lines, replay, next_mode, is_begin,
  is_commit, starts_with,
}

-- What snprintf or recover put into the buffer.
abbrev pub Fits : CString → Type 0
Fits line = length line ≤ 255

-- No byte is a newline.
abbrev pub IsLine : CString → Type 0
IsLine = All (λ c. c ≢ 10)

take_short : (n : ℕ) (xs : CString) → length xs ≤ n → take n xs ≡ xs
take_short zero [] h = refl
take_short zero (x ∷ xs) h = absurd (omega (arith, h))
take_short (suc n) [] h = refl
take_short (suc n) (x ∷ xs) h = ap (λ ys. x ∷ ys) (take_short n xs (omega (arith, h)))

take_le : (n : ℕ) (xs : CString) → length (take n xs) ≤ n
take_le zero xs = omega arith
take_le (suc n) [] = omega arith
take_le (suc n) (x ∷ xs) = omega (arith, take_le n xs)

take-All : (P : ℕ → Type 0) (n : ℕ) (xs : CString) → All P xs → All P (take n xs)
take-All P zero xs a = tt
take-All P (suc n) [] a = tt
take-All P (suc n) (x ∷ xs) a = (a.0, take-All P n xs a.1)

pub snprintf-whole : (text : CString) → Fits text → snprintf text ≡ text
unfolding snprintf
snprintf-whole text h = take_short 255 text h

pub snprintf-Fits : (text : CString) → Fits (snprintf text)
unfolding snprintf
snprintf-Fits text = take_le 255 text

pub snprintf-IsLine : (text : CString) → IsLine text → IsLine (snprintf text)
unfolding snprintf
snprintf-IsLine text a = take-All (λ c. c ≢ 10) 255 text a

split_lines-IsLine : (line : CString) → IsLine line → split_lines line ≡ line ∷ []
unfolding split_lines push_byte
split_lines-IsLine [] a = refl
split_lines-IsLine (c ∷ line) a =
    let e : (c == 10) ≡ false = ground (arith, a.0) in rw (e, split_lines-IsLine line a.1) refl

pub append_lines-none : (line : CString) → IsLine line → append_lines none line ≡ line ∷ []
unfolding append_lines
append_lines-none line a = split_lines-IsLine line a

pub append_lines-some :
    (lines : List CString) (line : CString)
    → IsLine line
    → append_lines (some lines) line ≡ lines ++ (line ∷ [])
unfolding append_lines
append_lines-some lines line a = ap (λ xs. lines ++ xs) (split_lines-IsLine line a)

fgets_short : (room : ℕ) (line : CString) → length line < room → fgets room line ≡ line ∷ []
unfolding fgets push_byte
fgets_short zero line h = absurd (omega (arith, h))
fgets_short (suc room) [] h = refl
fgets_short (suc room) (c ∷ line) h = ap (push_byte c) (fgets_short room line (omega (arith, h)))

fgets_full : (room : ℕ) (line : CString) → length line ≡ room → fgets room line ≡ line ∷ [] ∷ []
unfolding fgets push_byte
fgets_full zero [] h = refl
fgets_full zero (c ∷ line) h = absurd (omega (arith, h))
fgets_full (suc room) [] h = absurd (omega (arith, h))
fgets_full (suc room) (c ∷ line) h = ap (push_byte c) (fgets_full room line (omega (arith, h)))

fgets-Fits :
    (line : CString) → Fits line → (fgets 255 line ≡ line ∷ []) ⊎ (fgets 255 line ≡ line ∷ [] ∷ [])
fgets-Fits line h = elim (short_or_full line h) [
  | inl lt ↦ inl (fgets_short 255 line lt)
  | inr e ↦ inr (fgets_full 255 line e)
]
  where
    short_or_full : (line : CString) → Fits line → (length line < 255) ⊎ (length line ≡ 255)
    short_or_full line h = ground (arith, h)

-- An empty line is passed over.
replay-empty : (b : Bool) (rest : List CString) → replay b ([] ∷ rest) ≡ replay b rest
unfolding replay next_mode is_begin is_commit starts_with
replay-empty true rest = refl
replay-empty false rest = refl

replay-after :
    (b : Bool) (line : CString) (xs ys : List CString)
    → ((b : Bool) → replay b xs ≡ replay b ys)
    → replay b (line ∷ xs) ≡ replay b (line ∷ ys)
unfolding replay
replay-after b line xs ys h = rw (h (next_mode b line)) refl

pub replay-read_lines :
    (b : Bool) (lines : List CString)
    → All Fits lines
    → replay b (read_lines lines) ≡ replay b lines
unfolding read_lines
replay-read_lines b [] a = refl
replay-read_lines b (line ∷ lines) a = elim (fgets-Fits line a.0) [
  | inl e ↦ rw e (replay-after b line (read_lines lines) lines (λ m. replay-read_lines m lines a.1))
  | inr e ↦ rw e (
      replay-after b line ([] ∷ read_lines lines) lines
        (λ m. replay-empty m (read_lines lines) ∙ replay-read_lines m lines a.1))
]
