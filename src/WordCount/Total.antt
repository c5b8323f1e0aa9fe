-- ===== src/WordCount/Total.antt =====
-- wordcount.c: the sum over the threads is the number of words of the file.
use mathlib.Core.List.{Perm, Permᴰ}
use mathlib.Core.List.Permᴰ.{nil, cons, swap, trans}
use mathlib.Core.Logic.{∥∥₁_elim}
use native.Mathlib.Nat.{ℕ_set}
use leetcode.Base.{
  ℕ, ◌+◌, ◌*◌, ◌/◌, ◌≤◌, ◌<◌, ◌≡◌, refl, inl, inr, ◌⊎◌, true, false, List, [], ◌∷◌, map, arith,
  if◌then◌else◌, length, ap, ◌∙◌,
}
use leetcode.WordCount.{
  word_at, count_loop, border, thread_args, thread_count, add_counts, total_words,
}
use leetcode.WordCount.Scan.{no_word_before, word_starts, count-starts}
use leetcode.WordCount.Chunks.{IsBorder, border-IsBorder, border_mono}

-- A thread whose part is [start, end) adds the word starts in it.
abbrev Adds : List ℕ → (i start end : ℕ) → Type 0
Adds bytes i start end =
    thread_count bytes i + word_starts (word_at bytes) start ≡ word_starts (word_at bytes) end

-- The border of the part `i`.
abbrev cut : List ℕ → ℕ → ℕ
cut bytes i = border (word_at bytes) (length bytes) (i * (length bytes / 4))

module _ (bytes : List ℕ) (big : 4 ≤ length bytes) where
  args_0 : thread_args (word_at bytes) (length bytes) 0 ≡ record { start = 0; end = cut bytes 1 }
  unfolding thread_args
  args_0 = ground arith

  args_1 :
      thread_args (word_at bytes) (length bytes) 1
      ≡ record { start = cut bytes 1; end = cut bytes 2 }
  unfolding thread_args
  args_1 = ground arith

  args_2 :
      thread_args (word_at bytes) (length bytes) 2
      ≡ record { start = cut bytes 2; end = cut bytes 3 }
  unfolding thread_args
  args_2 = ground arith

  args_3 :
      thread_args (word_at bytes) (length bytes) 3
      ≡ record { start = cut bytes 3; end = length bytes }
  unfolding thread_args
  args_3 = ground arith

  cut-IsBorder :
      (i : ℕ)
      → i < 4
      → IsBorder (word_at bytes) (length bytes) (i * (length bytes / 4)) (cut bytes i)
  cut-IsBorder i lt = border-IsBorder (word_at bytes) (length bytes) _ (grind arith)

  -- A part that begins and ends at borders.
  adds :
      (i start end : ℕ)
      → thread_args (word_at bytes) (length bytes) i ≡ record { start = start; end = end }
      → start ≤ end
      → end ≤ length bytes
      → (no_word_before (word_at bytes) start ≡ true)
        ⊎ (start ≡ length bytes)
        ⊎ (word_at bytes start ≡ false)
      → Adds bytes i start end
  unfolding thread_count
  adds i start end e le fits h =
      rw (thread_count, e)
        (count-starts (word_at bytes) start end le (elim h [
          | inl a ↦ inl a
          | inr (inl a) ↦ inr (inr (omega arith))
          | inr (inr a) ↦ inr (inl a)
        ]))

  cut_mono : (i j : ℕ) → i ≤ j → j < 4 → cut bytes i ≤ cut bytes j
  cut_mono i j le lt =
      border_mono (word_at bytes) (length bytes) (i * (length bytes / 4)) (j * (length bytes / 4)) _
        _ (grind arith) (cut-IsBorder i (omega arith)) (cut-IsBorder j lt)

  adds_all :
      thread_count bytes 0 + thread_count bytes 1 + thread_count bytes 2 + thread_count bytes 3
      ≡ word_starts (word_at bytes) (length bytes)
  unfolding word_starts no_word_before
  adds_all =
      let b1 = cut-IsBorder 1 (omega arith) in
      let b2 = cut-IsBorder 2 (omega arith) in
      let b3 = cut-IsBorder 3 (omega arith) in
      omega (
        arith,
        adds 0 0 (cut bytes 1) args_0 (omega arith) b1.inside (inl refl),
        adds 1 _ _ args_1 (cut_mono 1 2 (omega arith) (omega arith)) b2.inside (inr b1.stops),
        adds 2 _ _ args_2 (cut_mono 2 3 (omega arith) (omega arith)) b3.inside (inr b2.stops),
        adds 3 _ _ args_3 b3.inside (omega arith) (inr b3.stops),
      )

add_counts-acc : (acc a : ℕ) (cs : List ℕ) → add_counts (acc + a) cs ≡ add_counts acc cs + a
unfolding add_counts
add_counts-acc acc a [] = refl
add_counts-acc acc a (c ∷ cs) =
    ap (λ n. add_counts n cs) (omega arith) ∙ add_counts-acc (acc + c) a cs

-- The additions may be made in any order.
add_counts-perm :
    (f : ℕ → ℕ) {xs ys : List ℕ} (acc : ℕ)
    → Permᴰ xs ys
    → add_counts acc (map f xs) ≡ add_counts acc (map f ys)
unfolding add_counts
add_counts-perm f acc nil = refl
add_counts-perm f acc (cons {l₂} e p) =
    add_counts-perm f (acc + f _) p ∙ ap (λ a. add_counts (acc + f a) (map f l₂)) e
add_counts-perm f acc (swap {a} {b} {a'} {b'} {l} e e') =
    ap (λ n. add_counts n (map f l)) (omega (arith, ap f e, ap f e'))
add_counts-perm f acc (trans p q) = add_counts-perm f acc p ∙ add_counts-perm f acc q

-- If the file has at least four bytes, main prints the number of its words, in whatever order its
-- four threads finish, also where the border between two parts falls inside a word.
pub total_words_lem :
    (bytes order : List ℕ)
    → 4 ≤ length bytes
    → Perm order (0 ∷ 1 ∷ 2 ∷ 3 ∷ [])
    → total_words bytes order ≡ word_starts (word_at bytes) (length bytes)
unfolding total_words add_counts
total_words_lem bytes order big p =
    ∥∥₁_elim p (ℕ_set _ _)
      λ q. add_counts-perm (thread_count bytes) 0 q ∙ omega (arith, adds_all bytes big)

no_word_past_end : word_at [] 0 ≡ false
unfolding word_at
no_word_past_end = refl

short_counts :
    (bytes : List ℕ)
    → length bytes < 4
    → thread_count bytes 0 + thread_count bytes 1 + thread_count bytes 2 + thread_count bytes 3
      ≡ word_starts (word_at bytes) (length bytes) + (if word_at bytes 0 then 3 else 0)
unfolding thread_count thread_args border count_loop word_starts no_word_before
short_counts [] h = ground (arith, no_word_past_end)
short_counts (a ∷ []) h = ground arith
short_counts (a ∷ b ∷ []) h = ground arith
short_counts (a ∷ b ∷ c ∷ []) h = ground arith
short_counts (a ∷ b ∷ c ∷ d ∷ r) h = absurd (omega arith)

-- Of a file with fewer than four bytes main prints the number of its words, and 3 more if a word
-- stands at its start, in whatever order its four threads finish.
pub short_file_overcount :
    (bytes order : List ℕ)
    → length bytes < 4
    → Perm order (0 ∷ 1 ∷ 2 ∷ 3 ∷ [])
    → total_words bytes order
      ≡ word_starts (word_at bytes) (length bytes) + (if word_at bytes 0 then 3 else 0)
unfolding total_words add_counts
short_file_overcount bytes order small p =
    ∥∥₁_elim p (ℕ_set _ _)
      λ q. add_counts-perm (thread_count bytes) 0 q ∙ omega (arith, short_counts bytes small)
