-- ===== src/WordCount/Scan.antt =====
-- wordcount.c: the loop of count_words against the number of word starts.
use leetcode.Base.{
  ℕ, zero, suc, ◌+◌, ◌-◌, ◌≤◌, ◌<◌, ◌≡◌, inl, inr, ◌⊎◌, Bool, true, false, not, ◌&&◌, arith,
  if◌then◌else◌, ◌∙◌, sym, ap,
}
use native.Mathlib.Decide.{ℕ_discrete}
use native.Mathlib.Nat.{add-zero}
use native.Mathlib.Numerals.{add-one}
use leetcode.WordCount.{count_loop}

-- No word goes on at `i` from the byte before.
unfoldable pub no_word_before : (ℕ → Bool) → ℕ → Bool
no_word_before word zero = true
no_word_before word (suc i) = not (word i)

-- How many words start below `n`: a byte of a word, with none before it.
unfoldable pub word_starts : (ℕ → Bool) → ℕ → ℕ
word_starts word zero = 0
word_starts word (suc n) = (if word n && no_word_before word n then 1 else 0) + word_starts word n

module _ (word : ℕ → Bool) where
  starts_step :
      (i : ℕ)
      → word_starts word (i + 1)
        ≡ (if word i && no_word_before word i then 1 else 0) + word_starts word i
  unfolding word_starts
  starts_step i = rw add-one

  before_step : (i : ℕ) → no_word_before word (i + 1) ≡ not (word i)
  unfolding no_word_before
  before_step i = rw add-one

  count_loop_lem :
      (rounds i count : ℕ) (in_word : Bool)
      → not in_word ≡ no_word_before word i
      → count_loop word rounds i count in_word + word_starts word i
        ≡ count + word_starts word (i + rounds)
  unfolding count_loop
  count_loop_lem zero i count in_word e = omega (arith, ap (word_starts word) (add-zero i))
  count_loop_lem (suc rounds) i count in_word e =
      let ends : word_starts word (i + suc rounds) ≡ word_starts word (i + 1 + rounds) =
        ap (word_starts word) (omega arith) in
      ground (
        arith,
        ends,
        starts_step i,
        e,
        count_loop_lem rounds (i + 1) (if word i && not in_word then count + 1 else count) (word i)
            (sym (before_step i)),
      )

  count-empty :
      (start end : ℕ)
      → start ≡ end
      → count_loop word (end - start) start 0 false + word_starts word start ≡ word_starts word end
  unfolding count_loop
  count-empty start end e =
      let none : end - start ≡ 0 = omega arith in rw none (omega (arith, ap (word_starts word) e))

  -- Where no word goes on.
  count-outside :
      (start end : ℕ)
      → start ≤ end
      → no_word_before word start ≡ true
      → count_loop word (end - start) start 0 false + word_starts word start ≡ word_starts word end
  count-outside start end le h =
      let all : start + (end - start) ≡ end = omega arith in
      count_loop_lem (end - start) start 0 false (sym h) ∙ omega (arith, ap (word_starts word) all)

  -- At a byte of no word.
  count-gap :
      (start end : ℕ)
      → start < end
      → word start ≡ false
      → count_loop word (end - start) start 0 false + word_starts word start ≡ word_starts word end
  unfolding count_loop
  count-gap start end lt off =
      let some_round : end - start ≡ suc (end - (start + 1)) = omega arith in
      rw (some_round, count_loop, off)
        (omega (
          arith,
          count-outside (start + 1) end (omega arith) (before_step start ∙ ap not off),
          starts_step start
              ∙ ap (λ w. (if w && no_word_before word start then 1 else 0) + word_starts word start)
                  off,
        ))

  -- A scan that starts where no word goes on counts the starts in its range.
  pub count-starts :
      (start end : ℕ)
      → start ≤ end
      → (no_word_before word start ≡ true) ⊎ (word start ≡ false) ⊎ (start ≡ end)
      → count_loop word (end - start) start 0 false + word_starts word start ≡ word_starts word end
  count-starts start end le h = elim h [
    | inl free ↦ count-outside start end le free
    | inr (inl off) ↦ elim (ℕ_discrete start end) [
      | yes p ↦ count-empty start end p
      | no p ↦ count-gap start end (omega arith) off
    ]
    | inr (inr e) ↦ count-empty start end e
  ]
