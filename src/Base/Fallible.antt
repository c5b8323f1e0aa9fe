-- ===== src/Base/Fallible.antt =====
-- Chains of calls that may fail, for `do` blocks.
use leetcode.Base.{Option, none, some}

infixl 5 ◌>>=◌
abbrev pub ◌>>=◌ {ℓ κ} : {A : Type ℓ} {B : Type κ} → Option A → (A → Option B) → Option B
none >>= f = none
some a >>= f = f a
