-- ===== src/Common/Chain.antt =====
-- Steps that may give no result, one after the other.
use mathlib.Core.Option.{Option, none, some}

infixl 5 ◌>>=◌
abbrev pub ◌>>=◌ {ℓ k} : {A : Type ℓ} {B : Type k} → Option A → (A → Option B) → Option B
none >>= f = none
some a >>= f = f a
