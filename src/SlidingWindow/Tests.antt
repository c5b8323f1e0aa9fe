-- ===== src/SlidingWindow/Tests.antt =====
-- 239.c: windows of three of six numbers.
use leetcode.Base.{ℕ, ◌+◌, ◌-◌, ◌<◌, ◌≡◌, refl, none, some, List, [], ◌∷◌, get_or, map, arith}
use leetcode.Base.Int.{ℤ, pos, negsuc}
use leetcode.SlidingWindow.{Ints, max_sliding_window}
use leetcode.SlidingWindow.Maxima.{IsMaximum, max_sliding_window-IsMaximum}

abbrev six : Ints
six i = get_or (pos 1 ∷ pos 3 ∷ negsuc 0 ∷ negsuc 2 ∷ pos 5 ∷ pos 3 ∷ []) i (pos 0)

abbrev junk : Ints
junk i = pos 99

-- The results, for a window that fits.
results : ℤ → List ℤ
results k = elim (max_sliding_window (λ i. i + 7) junk six 6 k) [
  | none ↦ []
  | some r ↦ map r.0 (0 ∷ 1 ∷ 2 ∷ 3 ∷ [])
]

four_maxima : results (pos 3) ≡ pos 3 ∷ pos 3 ∷ pos 5 ∷ pos 5 ∷ []
unfolding results max_sliding_window
four_maxima = refl

too_large : results (pos 7) ≡ []
unfolding results max_sliding_window
too_large = refl

max_sliding_window-IsMaximum_example :
    (r : Ints) × (max_sliding_window (λ i. i) junk six 6 (pos 3) ≡ some (r, 6 - 3 + 1))
    × ((j : ℕ) → j < 6 - 3 + 1 → IsMaximum six j 3 (r j))
max_sliding_window-IsMaximum_example =
    max_sliding_window-IsMaximum (λ i. i) junk six 6 3 (omega arith) (omega arith)
