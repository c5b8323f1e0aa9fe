-- ===== src/Anagrams.antt =====
-- 49.c: strings grouped by their letters. `char` is signed: a byte from 128 on stands for 256 less.
-- The strings that malloc and strdup copy are values, and a node of the table is a pair.
pub mod Sorting
pub mod Keys
pub mod Groups
mod Tests
use leetcode.Base.{
  ℕ, zero, suc, ◌+◌, ◌-◌, ◌*◌, ◌%◌, ◌^◌, Bool, true, false, List, [], ◌∷◌, ltb, if◌then◌else◌,
  length, get_or, set, CString, update, map,
}

abbrev pub table_size : ℕ
table_size = 1_007

-- A `char` as an `int`, in the 64 bits of the sum.
unfoldable pub widened : ℕ → ℕ
widened c = if ltb c 128 then c else c + (2 ^ 64 - 256)

-- `hashValue << 5` is a product with 32, in 64 bits.
unfoldable pub hash_from : (hash_value : ℕ) → CString → ℕ
unfolding widened
hash_from hash_value [] = hash_value
hash_from hash_value (c ∷ key) =
    hash_from ((hash_value * 32 % 2 ^ 64 + hash_value + widened c) % 2 ^ 64) key

unfoldable pub hash : CString → ℕ
hash key = hash_from 5381 key % table_size

-- A node has the sorted key and the original string.
abbrev pub Node : Type 0
Node = CString × CString

abbrev pub Table : Type 0
Table = ℕ → List Node

unfoldable pub insert : Table → (sorted_key original : CString) → Table
insert hash_table sorted_key original =
    update hash_table (hash sorted_key) ((sorted_key, original) ∷ hash_table (hash sorted_key))

-- The place of a byte among the values of a `char`.
abbrev pub char_rank : ℕ → ℕ
char_rank c = (c + 128) % 256

-- The body of the loops of sortString.
unfoldable pub order_at : CString → (i j : ℕ) → CString
order_at sorted i j =
    let tmp = get_or sorted i 0 in
    if ltb (char_rank (get_or sorted j 0)) (char_rank tmp)
    then set (set sorted i (get_or sorted j 0)) j tmp
    else sorted

-- The inner loop from `j` on, and the outer one from `i` on.
unfoldable pub inner_loop : (rounds : ℕ) → CString → (i j : ℕ) → CString
inner_loop zero sorted i j = sorted
inner_loop (suc rounds) sorted i j = inner_loop rounds (order_at sorted i j) i (j + 1)

unfoldable pub outer_loop : (rounds : ℕ) → CString → (len i : ℕ) → CString
outer_loop zero sorted len i = sorted
outer_loop (suc rounds) sorted len i =
    outer_loop rounds (inner_loop (len - (i + 1)) sorted i (i + 1)) len (i + 1)

unfoldable pub sort_string : CString → CString
unfolding outer_loop inner_loop order_at
sort_string s = outer_loop (length s - 1) s (length s) 0

-- The first loop of groupAnagrams.
unfoldable pub insert_all : Table → List CString → Table
insert_all hash_table [] = hash_table
insert_all hash_table (s ∷ strs) = insert_all (insert hash_table (sort_string s) s) strs

-- The last loop, from the bucket `i` on.
unfoldable pub collect : Table → (rounds i : ℕ) → List (List CString)
collect hash_table zero i = []
collect hash_table (suc rounds) i =
    let rest = collect hash_table rounds (i + 1) in
    elim (hash_table i) [ [] ↦ rest | node ∷ nodes ↦ map (λ (n : Node). n.1) (node ∷ nodes) ∷ rest ]

unfoldable pub group_anagrams : List CString → List (List CString)
unfolding insert_all collect
group_anagrams strs = collect (insert_all (λ i. []) strs) table_size 0
