-- ===== src/WordCount/Chunks.antt =====
-- wordcount.c: the borders between the parts of the threads.
use leetcode.Base.{
  ℕ, zero, suc, ◌+◌, ◌-◌, ◌≤◌, ◌<◌, ◌≡◌, inl, inr, ◌⊎◌, Bool, true, false, arith, Bool-cases, ltb,
}
use native.Mathlib.Decide.{ℕ_discrete}
use leetcode.WordCount.{skip_word, border}

-- `q` is the first byte from `p` on that is of no word, or the end.
pub record IsBorder (word : ℕ → Bool) (size p q : ℕ) : Type 0 where
  pub ahead : p ≤ q
  pub inside : q ≤ size
  pub skipped : (j : ℕ) → p ≤ j → j < q → word j ≡ true
  pub stops : (q ≡ size) ⊎ (word q ≡ false)

module _ (word : ℕ → Bool) (size : ℕ) where
  skip_word-IsBorder :
      (rounds p : ℕ) → p + rounds ≡ size → IsBorder word size p (skip_word word size rounds p)
  unfolding skip_word
  skip_word-IsBorder zero p e = record {
    ahead = omega arith;
    inside = omega arith;
    skipped = λ j lo hi. absurd (omega arith);
    stops = inl (omega arith);
  }
  skip_word-IsBorder (suc rounds) p e = elim (Bool-cases (word p)) [
    | inr off ↦
        rw (less, skip_word, off)
          (record {
            ahead = omega arith;
            inside = omega arith;
            skipped = λ j lo hi. absurd (omega arith);
            stops = inr off;
          })
    | inl on ↦
        let next = skip_word-IsBorder rounds (p + 1) (omega arith) in
        rw (less, skip_word, on)
          (record {
            ahead = omega (arith, next.ahead);
            inside = next.inside;
            skipped = λ j lo hi. elim (ℕ_discrete j p) [
              | yes q ↦ rw q on
              | no q ↦ next.skipped j (omega arith) hi
            ];
            stops = next.stops;
          })
  ]
    where
      less : ltb p size ≡ true
      less = ground arith

  pub border-IsBorder : (p : ℕ) → p ≤ size → IsBorder word size p (border word size p)
  unfolding border
  border-IsBorder p le = skip_word-IsBorder (size - p) p (omega arith)

  -- Borders are in the order of the points that they come from.
  pub border_mono :
      (p p' q q' : ℕ) → p ≤ p' → IsBorder word size p q → IsBorder word size p' q' → q ≤ q'
  border_mono p p' q q' le b b' = ground (arith, b.skipped q')
