-- ===== src/Parentheses/Balance.antt =====
-- 20.c: the strings that isValid accepts are the balanced ones.
use leetcode.Base.{
  ℕ, ◌≡◌, ◌↔◌, refl, ap, sym, ◌∙◌, true, false, List, [], ◌∷◌, ◌++◌, CString, arith, All,
  Bool-cases, inl, inr, ◌⊎◌,
}
use mathlib.Core.List.{append_assoc, append-nil}
use leetcode.Parentheses.{is_open, mismatch, is_valid_from, is_valid}

-- `c` closes the bracket `o`.
pub data Pair : (o c : ℕ) → Type 0 where
  round : {o c : ℕ} → o ≡ b'(' → c ≡ b')' → Pair o c
  curly : {o c : ℕ} → o ≡ b'{' → c ≡ b'}' → Pair o c
  square : {o c : ℕ} → o ≡ b'[' → c ≡ b']' → Pair o c

pub data Balanced : CString → Type 0 where
  nothing : {s : CString} → s ≡ [] → Balanced s
  wrap :
      {s : CString} (o c : ℕ) (u v : CString)
      → Pair o c
      → Balanced u
      → Balanced v
      → s ≡ o ∷ (u ++ c ∷ v)
      → Balanced s

abbrev pub IsBracket : ℕ → Type 0
IsBracket c = (c ≡ b'(') ⊎ ((c ≡ b')') ⊎ ((c ≡ b'{') ⊎ ((c ≡ b'}') ⊎ ((c ≡ b'[') ⊎ (c ≡ b']')))))

-- `s` closes the open brackets of a stack, the top first.
pub data Closes : List ℕ → CString → Type 0 where
  last : {s : CString} → Balanced s → Closes [] s
  next :
      {stack : List ℕ} {s : CString} (o c : ℕ) (u v : CString)
      → Pair o c
      → Balanced u
      → Closes stack v
      → s ≡ u ++ c ∷ v
      → Closes (o ∷ stack) s

Pair-open : (o c : ℕ) → Pair o c → (is_open o ≡ true) × (is_open c ≡ false) × (mismatch c o ≡ false)
Pair-open o c (round e f) = rw (e, f) (refl, refl, refl)
Pair-open o c (curly e f) = rw (e, f) (refl, refl, refl)
Pair-open o c (square e f) = rw (e, f) (refl, refl, refl)

step_open :
    (stack : List ℕ) (c : ℕ) (s : CString)
    → is_open c ≡ true
    → is_valid_from stack (c ∷ s) ≡ is_valid_from (c ∷ stack) s
unfolding is_valid_from
step_open [] c s h = rw h refl
step_open (t ∷ stack) c s h = rw h refl

step_close :
    (o : ℕ) (stack : List ℕ) (c : ℕ) (s : CString)
    → is_open c ≡ false
    → mismatch c o ≡ false
    → is_valid_from (o ∷ stack) (c ∷ s) ≡ is_valid_from stack s
unfolding is_valid_from
step_close o stack c s h m = rw (h, m) refl

-- A balanced part is passed over, whatever the stack.
pass :
    (u : CString)
    → Balanced u
    → (stack : List ℕ) (v : CString) → is_valid_from stack (u ++ v) ≡ is_valid_from stack v
pass u (nothing e) stack v = rw e refl
pass u (wrap o c a b p x y e) stack v =
    let (opens, no_open, fits) = Pair-open o c p in
    ap (λ w. is_valid_from stack (w ++ v)) e
    ∙ step_open stack o ((a ++ c ∷ b) ++ v) opens
    ∙ ap (is_valid_from (o ∷ stack)) (append_assoc a (c ∷ b) v)
    ∙ pass a x (o ∷ stack) (c ∷ (b ++ v))
    ∙ step_close o stack c (b ++ v) no_open fits
    ∙ pass b y stack v

-- Read from the front, a string that closes a stack is one that is accepted over it.
Closes-open :
    (stack : List ℕ) (c : ℕ) (s : CString)
    → is_open c ≡ true
    → Closes (c ∷ stack) s
    → Closes stack (c ∷ s)
Closes-open [] c s h (next _ d u v p x (last y) e) = last (wrap c d u v p x y (ap (λ w. c ∷ w) e))
Closes-open (t ∷ stack) c s h (next _ d u v p x (next _ d' u' v' p' x' k e') e) =
    next t d' (c ∷ (u ++ d ∷ u')) v' p' (wrap c d u u' p x x' refl) k
      (ap (λ w. c ∷ w) (e ∙ ap (λ w. u ++ d ∷ w) e' ∙ sym (append_assoc u (d ∷ u') (d' ∷ v'))))

fits-Pair :
    (o c : ℕ) → is_open o ≡ true → is_open c ≡ false → mismatch c o ≡ false → IsBracket c → Pair o c
fits-Pair o c h n m (inr (inl e)) = round (ground arith) e
fits-Pair o c h n m (inr (inr (inr (inl e)))) = curly (ground arith) e
fits-Pair o c h n m (inr (inr (inr (inr (inr e))))) = square (ground arith) e
fits-Pair o c h n m (inl e) = absurd (ground arith)
fits-Pair o c h n m (inr (inr (inl e))) = absurd (ground arith)
fits-Pair o c h n m (inr (inr (inr (inr (inl e))))) = absurd (ground arith)

sound :
    (stack : List ℕ) (s : CString)
    → All IsBracket s
    → All (λ o. is_open o ≡ true) stack
    → is_valid_from stack s ≡ true
    → Closes stack s
unfolding is_valid_from
sound [] [] b o h = last (nothing refl)
sound (t ∷ stack) [] b o h = cc
sound [] (c ∷ s) b o h = elim (Bool-cases (is_open c)) [
  | inl e ↦ Closes-open [] c s e (sound (c ∷ []) s b.1 (e, tt) (ground arith))
  | inr e ↦ cc
]
sound (t ∷ stack) (c ∷ s) b o h = elim (Bool-cases (is_open c)) [
  | inl e ↦ Closes-open (t ∷ stack) c s e (sound (c ∷ t ∷ stack) s b.1 (e, o) (ground arith))
  | inr e ↦
      let fits : mismatch c t ≡ false = ground arith in
      next t c [] s (fits-Pair t c o.0 e fits b.0) (nothing refl)
        (sound stack s b.1 o.1 (sym (step_close t stack c s e fits) ∙ h)) refl
]

complete : (stack : List ℕ) (s : CString) → Closes stack s → is_valid_from stack s ≡ true
complete [] s (last y) =
    ap (is_valid_from []) (sym (append-nil s)) ∙ pass s y [] [] ∙ (unfold is_valid_from in refl)
complete (t ∷ stack) s (next _ c u v p x k e) =
    let (opens, no_open, fits) = Pair-open t c p in
    ap (is_valid_from (t ∷ stack)) e
    ∙ pass u x (t ∷ stack) (c ∷ v)
    ∙ step_close t stack c v no_open fits
    ∙ complete stack v k

Closes-none : (s : CString) → Closes [] s → Balanced s
Closes-none s (last y) = y

-- isValid accepts a string of brackets exactly if it is balanced: empty, or an opening bracket, a
-- balanced string, the closing bracket of that kind, and another balanced string.
pub is_valid_iff : (s : CString) → All IsBracket s → (is_valid s ≡ true) ↔ Balanced s
unfolding is_valid
is_valid_iff s b = (λ h. Closes-none s (sound [] s b tt h), λ y. complete [] s (last y))
