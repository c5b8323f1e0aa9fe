-- ===== src/Subsequence/Table.antt =====
-- 1143.c: what the cells of the table hold, and the result.
use leetcode.Base.{
  ℕ, zero, suc, ◌+◌, ◌-◌, ◌≤◌, ◌<◌, ◌≡◌, refl, ap, sym, ◌∙◌, subst, [], ◌∷◌, ◌++◌, ◌==◌, length,
  CString, arith, Bool-cases, inl, inr, reverse, ==_iff, get_or, update, false, update-cases,
  length-append,
}
use mathlib.Core.List.{reverse-cons, reverse-reverse}
use leetcode.Subsequence.{Dp, cell, fill_row, fill_rows, longest_common_subsequence}
use leetcode.Subsequence.Optimal.{Subsequence, lcs, lcs-reached, lcs-most, reverse-Subsequence}

-- The first `i` elements of `s`, the last of them first.
unfoldable prefix : CString → (i : ℕ) → CString
prefix s zero = []
prefix s (suc i) = get_or s i 0 ∷ prefix s i

prefix-cons : (c : ℕ) (s : CString) (i : ℕ) → prefix (c ∷ s) (suc i) ≡ prefix s i ++ (c ∷ [])
unfolding prefix
prefix-cons c s zero = refl
prefix-cons c s (suc i) = ap (λ p. get_or s i 0 ∷ p) (prefix-cons c s i)

prefix-length : (s : CString) → prefix s (length s) ≡ reverse s
unfolding prefix
prefix-length [] = refl
prefix-length (c ∷ s) = rw (reverse-cons c s, sym (prefix-length s)) (prefix-cons c s (length s))

not_zero : (i : ℕ) → (suc i == 0) ≡ false
not_zero i = ground arith

pred_suc : (i : ℕ) → suc i - 1 ≡ i
pred_suc i = omega arith

module _ (text1 text2 : CString) where
  unfoldable wanted : (i j : ℕ) → ℕ
  wanted i j = lcs (prefix text1 i) (prefix text2 j)

  -- The rows before `i`, up to the cell before `n` in each.
  unfoldable Rows : Dp → (i n : ℕ) → Type 0
  Rows dp i n = (i' j' : ℕ) → i' < i → j' < n → dp i' j' ≡ wanted i' j'

  -- The cells before `j` in row `i`.
  unfoldable Row : Dp → (i j : ℕ) → Type 0
  Row dp i j = (j' : ℕ) → j' < j → dp i j' ≡ wanted i j'

  cell_lem :
      {n : ℕ} (dp : Dp) (i j : ℕ)
      → Rows dp i n
      → Row dp i j
      → j < n
      → cell text1 text2 dp i j ≡ wanted i j
  unfolding cell wanted prefix lcs Rows Row
  cell_lem dp zero j g h l = refl
  cell_lem dp (suc i) zero g h l = rw (not_zero i) refl
  cell_lem dp (suc i) (suc j) g h l =
      let a = g i j (omega arith) (omega (arith, l)) in
      let b = g i (suc j) (omega arith) l in
      let c = h j (omega arith) in rw (not_zero i, not_zero j, pred_suc i, pred_suc j, a, b, c) refl

  write-Rows :
      (n : ℕ) (dp : Dp) (i j v : ℕ) → Rows dp i n → Rows (update dp i (update (dp i) j v)) i n
  unfolding Rows
  write-Rows n dp i j v g i' j' l m =
      update-cases (λ r. r j' ≡ wanted i' j') dp i _ i' (λ e. absurd (omega (arith, e, l)))
        (λ _. g i' j' l m)

  write-Row :
      (dp : Dp) (i j v : ℕ)
      → Row dp i j
      → v ≡ wanted i j
      → Row (update dp i (update (dp i) j v)) i (j + 1)
  unfolding Row
  write-Row dp i j v h e j' l =
      update-cases (λ r. r j' ≡ wanted i j') dp i _ i
        (λ _.
          update-cases (λ u. u ≡ wanted i j') (dp i) j v j' (λ same. e ∙ ap (wanted i) (sym same))
            (λ other. h j' (omega (arith, other, l))))
        (λ other. absurd (other refl))

  fill_row_lem :
      (n k : ℕ) (dp : Dp) (i j : ℕ)
      → j + k ≡ n
      → Rows dp i n
      → Row dp i j
      → Rows (fill_row text1 text2 k dp i j) i n × Row (fill_row text1 text2 k dp i j) i n
  unfolding fill_row
  fill_row_lem n zero dp i j e g h = (g, subst (Row dp i) (omega (arith, e)) h)
  fill_row_lem n (suc k) dp i j e g h =
      fill_row_lem n k _ i (j + 1) (omega (arith, e)) (write-Rows n dp i j _ g)
        (write-Row dp i j _ h (cell_lem dp i j g h (omega (arith, e))))

  join-Rows : (n : ℕ) (dp : Dp) (i : ℕ) → Rows dp i n → Row dp i n → Rows dp (i + 1) n
  unfolding Rows Row
  join-Rows n dp i g h i' j' l m = elim (Bool-cases (i' == i)) [
    | inl e ↦ rw ((==_iff i' i).0 e) (h j' m)
    | inr e ↦ g i' j' (ground (arith, e, l)) m
  ]

  no_cell : (dp : Dp) (i : ℕ) → Row dp i 0
  unfolding Row
  no_cell dp i j' l = absurd (omega (arith, l))

  no_row : (n : ℕ) (dp : Dp) → Rows dp 0 n
  unfolding Rows
  no_row n dp i' j' l m = absurd (omega (arith, l))

  fill_rows_lem :
      (k : ℕ) (dp : Dp) (i : ℕ)
      → Rows dp i (length text2 + 1)
      → Rows (fill_rows text1 text2 k dp i) (i + k) (length text2 + 1)
  unfolding fill_rows
  fill_rows_lem zero dp i g = subst (λ m. Rows dp m (length text2 + 1)) (omega arith) g
  fill_rows_lem (suc k) dp i g =
      let (a, b) =
        fill_row_lem (length text2 + 1) (length text2 + 1) dp i 0 (omega arith) g (no_cell dp i) in
      subst (λ m. Rows (fill_rows text1 text2 (suc k) dp i) m (length text2 + 1)) (omega arith)
        (fill_rows_lem k _ (i + 1) (join-Rows _ _ i a b))

  result_lem :
      (dp : Dp) → longest_common_subsequence dp text1 text2 ≡ lcs (reverse text1) (reverse text2)
  unfolding longest_common_subsequence Rows wanted
  result_lem dp =
      rw (sym (prefix-length text1), sym (prefix-length text2))
        (fill_rows_lem (length text1 + 1) dp 0 (no_row _ dp) (length text1) (length text2)
          (omega arith) (omega arith))

length-reverse : (s : CString) → length (reverse s) ≡ length s
length-reverse [] = refl
length-reverse (c ∷ s) =
    rw (reverse-cons c s, length-append (reverse s) (c ∷ []), length-reverse s) (omega arith)

back : (w s : CString) → Subsequence w (reverse s) → Subsequence (reverse w) s
back w s g = subst (Subsequence (reverse w)) (reverse-reverse s) (reverse-Subsequence g)

-- The result is the length of a common subsequence of the two strings, and no common subsequence
-- of them is longer. The array may hold anything before the loops.
pub longest_common_subsequence_lem :
    (dp : Dp) (text1 text2 : CString)
    → ((w : CString) × Subsequence w text1
        × Subsequence w text2
        × (length w ≡ longest_common_subsequence dp text1 text2))
      × ((w : CString)
          → Subsequence w text1
          → Subsequence w text2
          → length w ≤ longest_common_subsequence dp text1 text2)
longest_common_subsequence_lem dp text1 text2 =
    let (w, a, b, e) = lcs-reached (reverse text1) (reverse text2) in
    (
      (
        reverse w,
        back w text1 a,
        back w text2 b,
        length-reverse w ∙ e ∙ sym (result_lem text1 text2 dp),
      ),
      λ v g h.
          rw (result_lem text1 text2 dp, sym (length-reverse v))
            (lcs-most _ _ _ (reverse-Subsequence g) (reverse-Subsequence h)),
    )
