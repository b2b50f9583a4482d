-- ===== src/Prelude/Panic.antt =====
-- `do` for `Option`: the operator `?` on an `Option`, and code that may panic, where `none` is the
-- panic.
use mathlib.Core.Option.{Option, none, some}

infixl 5 ◌>>=◌
abbrev pub ◌>>=◌ {ℓ κ} : {A : Type ℓ} {B : Type κ} → Option A → (A → Option B) → Option B
some a >>= f = f a
none >>= f = none
