-- ===== src/BoundedQueue/Asleep.antt =====
-- producer_consumer.c: how many threads wait on a condition.
use leetcode.Base.{
  ℕ, zero, suc, ◌+◌, ◌≤◌, ◌<◌, ◌≡◌, ◌⊎◌, inl, inr, refl, Bool, true, false, Bool-cases, arith, ◌==◌,
  if◌then◌else◌, update,
}

-- Of the threads below n.
unfoldable pub count_asleep : (asleep : ℕ → Bool) → (n : ℕ) → ℕ
count_asleep asleep zero = 0
count_asleep asleep (suc n) = count_asleep asleep n + (if asleep n then 1 else 0)

pub count_asleep_le : (asleep : ℕ → Bool) (n : ℕ) → count_asleep asleep n ≤ n
unfolding count_asleep
count_asleep_le asleep zero = omega arith
count_asleep_le asleep (suc n) = ground (arith, count_asleep_le asleep n)

untouched :
    (asleep : ℕ → Bool) (i n : ℕ) (b : Bool)
    → n ≤ i
    → count_asleep (update asleep i b) n ≡ count_asleep asleep n
unfolding count_asleep
untouched asleep i zero b h = refl
untouched asleep i (suc n) b h = ground (arith, h, untouched asleep i n b (omega (arith, h)))

-- A thread falls asleep, or is woken.
pub count-sleep :
    (asleep : ℕ → Bool) (i n : ℕ)
    → i < n
    → asleep i ≡ false
    → count_asleep (update asleep i true) n ≡ count_asleep asleep n + 1
unfolding count_asleep
count-sleep asleep i zero lt e = absurd (omega (arith, lt))
count-sleep asleep i (suc n) lt e = elim (Bool-cases (n == i)) [
  | inl f ↦
      (let same : n ≡ i = ground (arith, f) in
        ground (arith, f, same, e, untouched asleep i n true (omega (arith, same))))
  | inr f ↦ ground (arith, f, count-sleep asleep i n (ground (arith, f, lt)) e)
]

pub count-wake :
    (asleep : ℕ → Bool) (i n : ℕ)
    → i < n
    → asleep i ≡ true
    → count_asleep asleep n ≡ count_asleep (update asleep i false) n + 1
unfolding count_asleep
count-wake asleep i zero lt e = absurd (omega (arith, lt))
count-wake asleep i (suc n) lt e = elim (Bool-cases (n == i)) [
  | inl f ↦
      (let same : n ≡ i = ground (arith, f) in
        ground (arith, f, same, e, untouched asleep i n false (omega (arith, same))))
  | inr f ↦ ground (arith, f, count-wake asleep i n (ground (arith, f, lt)) e)
]

-- Some thread sleeps, or none does.
pub some_asleep :
    (asleep : ℕ → Bool) (n : ℕ)
    → ((i : ℕ) × (i < n) × (asleep i ≡ true))
      ⊎ (((i : ℕ) → i < n → asleep i ≡ false) × (count_asleep asleep n ≡ 0))
unfolding count_asleep
some_asleep asleep zero = inr (λ i lt. absurd (omega (arith, lt)), refl)
some_asleep asleep (suc n) = elim (Bool-cases (asleep n)) [
  | inl e ↦ inl (n, omega arith, e)
  | inr e ↦ elim (some_asleep asleep n) [
    | inl (i, lt, f) ↦ inl (i, omega (arith, lt), f)
    | inr (none, zero_asleep) ↦ inr (
      λ i lt. elim (Bool-cases (i == n)) [
        | inl f ↦ ground (arith, e, f)
        | inr f ↦ none i (ground (arith, f, lt))
      ],
      ground (arith, e, zero_asleep),
    )
  ]
]

-- Where fewer than n sleep, one is awake.
pub some_awake :
    (asleep : ℕ → Bool) (n : ℕ) → count_asleep asleep n < n → (i : ℕ) × (i < n) × (asleep i ≡ false)
unfolding count_asleep
some_awake asleep zero h = absurd (omega (arith, h))
some_awake asleep (suc n) h = elim (Bool-cases (asleep n)) [
  | inr e ↦ (n, omega arith, e)
  | inl e ↦
      (let (i, lt, f) = some_awake asleep n (ground (arith, e, h)) in (i, omega (arith, lt), f))
]

pub count-none :
    (asleep : ℕ → Bool) (n i : ℕ) → count_asleep asleep n ≡ 0 → i < n → asleep i ≡ false
unfolding count_asleep
count-none asleep zero i h lt = absurd (omega (arith, lt))
count-none asleep (suc n) i h lt = elim (Bool-cases (i == n)) [
  | inl f ↦ (let same : i ≡ n = ground (arith, f) in ground (arith, h, same))
  | inr f ↦ count-none asleep n i (omega (arith, h)) (ground (arith, f, lt))
]
