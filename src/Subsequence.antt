-- ===== src/Subsequence.antt =====
-- 1143.c: the length of the longest common subsequence, by a table over the prefixes.
pub mod Optimal
pub mod Table
mod Tests
use leetcode.Base.{
  ℕ, zero, suc, ◌+◌, ◌-◌, Bool, true, false, ◌||◌, List, [], ◌∷◌, ltb, ◌==◌, if◌then◌else◌, length,
  get_or, CString, update,
}

unfoldable pub max : ℕ → ℕ → ℕ
max a b = if ltb b a then a else b

-- The array `dp`, of which every cell is written before it is read.
abbrev pub Dp : Type 0
Dp = ℕ → ℕ → ℕ

-- What the body of the loops writes to dp[i][j].
unfoldable pub cell : (text1 text2 : CString) → Dp → (i j : ℕ) → ℕ
unfolding max
cell text1 text2 dp i j =
    if i == 0 || j == 0
    then 0
    else if get_or text1 (i - 1) 0 == get_or text2 (j - 1) 0
    then 1 + dp (i - 1) (j - 1)
    else max (dp (i - 1) j) (dp i (j - 1))

-- The inner loop from `j` on, and the outer one from `i` on.
unfoldable pub fill_row : (text1 text2 : CString) → (rounds : ℕ) → Dp → (i j : ℕ) → Dp
unfolding cell
fill_row text1 text2 zero dp i j = dp
fill_row text1 text2 (suc rounds) dp i j =
    fill_row text1 text2 rounds (update dp i (update (dp i) j (cell text1 text2 dp i j))) i (j + 1)

unfoldable pub fill_rows : (text1 text2 : CString) → (rounds : ℕ) → Dp → (i : ℕ) → Dp
unfolding fill_row
fill_rows text1 text2 zero dp i = dp
fill_rows text1 text2 (suc rounds) dp i =
    fill_rows text1 text2 rounds (fill_row text1 text2 (length text2 + 1) dp i 0) (i + 1)

-- `dp` is the array as it is before the loops.
unfoldable pub longest_common_subsequence : Dp → (text1 text2 : CString) → ℕ
unfolding fill_rows
longest_common_subsequence dp text1 text2 =
    fill_rows text1 text2 (length text1 + 1) dp 0 (length text1) (length text2)
