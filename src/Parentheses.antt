-- ===== src/Parentheses.antt =====
-- 20.c: whether brackets are balanced, with a stack. The top of the stack is the head of the list,
-- which never has more elements than the string.
pub mod Balance
mod Tests
use leetcode.Base.{
  ℕ, Bool, true, false, not, ◌&&◌, ◌||◌, List, [], ◌∷◌, ◌==◌, if◌then◌else◌, CString,
}

abbrev pub is_open : ℕ → Bool
is_open c = c == b'(' || c == b'{' || c == b'['

-- The test of a byte that is not an opening bracket, over a stack that is not empty.
abbrev pub mismatch : (c top : ℕ) → Bool
mismatch c top =
    c == b')' && not (top == b'(')
    || c == b'}' && not (top == b'{')
    || c == b']' && not (top == b'[')

-- The loop, and the test after it.
unfoldable pub is_valid_from : (stack : List ℕ) → CString → Bool
is_valid_from [] [] = true
is_valid_from (top ∷ stack) [] = false
is_valid_from [] (c ∷ s) = let rest = is_valid_from (c ∷ []) s in if is_open c then rest else false
is_valid_from (top ∷ stack) (c ∷ s) =
    let opened = is_valid_from (c ∷ top ∷ stack) s in
    let closed = is_valid_from stack s in
    if is_open c then opened else if mismatch c top then false else closed

unfoldable pub is_valid : CString → Bool
unfolding is_valid_from
is_valid s = is_valid_from [] s
