-- ===== src/WordCount.antt =====
-- wordcount.c: four threads count the words of a file, each in a part of it. The buffer is a list of
-- bytes; the counts do not overflow. Threads meet only in the locked
-- addition to word_count, so a run is an order of the four additions.
pub mod Scan
pub mod Chunks
pub mod Total
pub mod Main
mod Tests
use leetcode.Base.{
  ℕ, zero, suc, ◌+◌, ◌-◌, ◌*◌, ◌/◌, Bool, true, false, not, ◌&&◌, ◌||◌, List, [], ◌∷◌, map, ltb,
  leb, ◌==◌, if◌then◌else◌, length, get_or,
}

abbrev pub max_threads : ℕ
max_threads = 4

pub record WordCount : Type 0 where
  pub start : ℕ
  pub end : ℕ

-- isalnum, in the C locale.
unfoldable pub is_word_char : ℕ → Bool
is_word_char c = leb b'0' c && leb c b'9' || leb b'A' c && leb c b'Z' || leb b'a' c && leb c b'z'

unfoldable pub word_at : List ℕ → ℕ → Bool
unfolding is_word_char
word_at bytes i = is_word_char (get_or bytes i 0)

-- The loop of count_words, from the index `i` on. `word` says which bytes are of a word.
unfoldable pub count_loop : (ℕ → Bool) → (rounds i count : ℕ) → Bool → ℕ
count_loop word zero i count in_word = count
count_loop word (suc rounds) i count in_word =
    count_loop word rounds (i + 1) (if word i && not in_word then count + 1 else count) (word i)

unfoldable pub count_words : List ℕ → WordCount → ℕ
count_words bytes args = count_loop (word_at bytes) (args.end - args.start) args.start 0 false

-- The two loops of main that move a border behind the word that it falls in. The rounds are the
-- bytes that are left.
unfoldable pub skip_word : (ℕ → Bool) → (size rounds p : ℕ) → ℕ
skip_word word size zero p = p
skip_word word size (suc rounds) p = elim (ltb p size && word p) [
  | true ↦ skip_word word size rounds (p + 1)
  | false ↦ p
]

unfoldable pub border : (ℕ → Bool) → (size p : ℕ) → ℕ
unfolding skip_word
border word size p = skip_word word size (size - p) p

-- The part of thread `i`.
unfoldable pub thread_args : (ℕ → Bool) → (size i : ℕ) → WordCount
thread_args word size i =
    let chunks = size / max_threads in
    let start = i * chunks in
    let end = if i == max_threads - 1 then size else (i + 1) * chunks in
    record {
      start = if ltb 0 start then border word size start else start;
      end = if ltb end size then border word size end else end;
    }

-- What thread `i` adds.
unfoldable pub thread_count : List ℕ → ℕ → ℕ
unfolding count_words
thread_count bytes i = count_words bytes (thread_args (word_at bytes) (length bytes) i)

unfoldable pub add_counts : ℕ → List ℕ → ℕ
add_counts word_count [] = word_count
add_counts word_count (c ∷ cs) = add_counts (word_count + c) cs

-- What main prints, if the threads finish in this order.
unfoldable pub total_words : List ℕ → (order : List ℕ) → ℕ
unfolding add_counts
total_words bytes order = add_counts 0 (map (thread_count bytes) order)
