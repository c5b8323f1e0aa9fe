-- ===== src/WordCount/Tests.antt =====
-- wordcount.c on small files.
use mathlib.Core.List.Perm
use leetcode.Base.{◌≡◌, refl, some, none, true, false, List, [], ◌∷◌, arith, ℕ, ◌+◌}
use leetcode.WordCount.{word_at, count_loop, border, thread_args, thread_count, total_words}
use leetcode.WordCount.Scan.{word_starts, no_word_before}
use leetcode.WordCount.Total.{short_file_overcount}
use leetcode.WordCount.Main.{Calls, main, is_some, main_counts, main_exits}

abbrev in_order : List ℕ
in_order = 0 ∷ 1 ∷ 2 ∷ 3 ∷ []

-- "a bcdef gh"
abbrev three_words : List ℕ
three_words = b'a' ∷ 32 ∷ b'b' ∷ b'c' ∷ b'd' ∷ b'e' ∷ b'f' ∷ 32 ∷ b'g' ∷ b'h' ∷ []

three_words_total : total_words three_words in_order ≡ 3
unfolding total_words thread_count thread_args border count_loop word_at
three_words_total = refl

-- The file "a" has four words.
short_file_overcount_example : total_words (b'a' ∷ []) in_order ≡ 1 + 3
unfolding word_starts no_word_before word_at
short_file_overcount_example =
    short_file_overcount (b'a' ∷ []) in_order (omega arith) (Perm.refl in_order)

-- A file that is read into a buffer of zeros.
abbrev whole_file : Calls
whole_file = record {
  opens = true;
  stat = some 10;
  malloc = λ n. some (0 ∷ 0 ∷ 0 ∷ 0 ∷ 0 ∷ 0 ∷ 0 ∷ 0 ∷ 0 ∷ 0 ∷ []);
  read = λ n. some three_words;
}

main_counts_example :
    main whole_file ((b'f' ∷ []) ∷ []) in_order
    ≡ record { exit_code = 0; total = some 3; fd_open = false }
unfolding word_starts no_word_before word_at
main_counts_example =
    main_counts whole_file (b'f' ∷ []) [] three_words in_order
      (refl, refl, (0 ∷ 0 ∷ 0 ∷ 0 ∷ 0 ∷ 0 ∷ 0 ∷ 0 ∷ 0 ∷ 0 ∷ [], refl, refl), refl) (omega arith)
      (Perm.refl in_order)

-- Memory runs out.
abbrev no_memory : Calls
no_memory = record { opens = true; stat = some 10; malloc = λ n. none; read = λ n. none }

main_exits_example :
    let o = main no_memory ((b'f' ∷ []) ∷ []) in_order in
    (o.exit_code ≡ 1) × (is_some o.total ≡ false) × (o.fd_open ≡ true)
main_exits_example = main_exits no_memory (b'f' ∷ []) [] in_order
