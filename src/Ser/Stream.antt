-- ===== src/Ser/Stream.antt =====
-- Reading and writing as state passing: `do` for code that threads a reader or a writer and stops
-- at the first error.
use grin.Prelude.{Result, ok, err}
use grin.Ser.Types.{Error}

abbrev pub Stream : Type 0 → Type 0 → Type 0
Stream S A = S → Result Error (A × S)

module _ {S A : Type 0} where
  abbrev pub pure : A → Stream S A
  pure a s = ok (a, s)

  abbrev pub fail : Error → Stream S A
  fail e s = err e

  module _ {B : Type 0} where
    abbrev pub and_then : Result Error (A × S) → (A → Stream S B) → Result Error (B × S)
    and_then (ok r) f = f r.0 r.1
    and_then (err e) f = err e

    infixl 5 ◌>>=◌
    abbrev pub ◌>>=◌ : Stream S A → (A → Stream S B) → Stream S B
    (m >>= f) s = and_then (m s) f

    infixl 5 ◌>>◌
    abbrev pub ◌>>◌ : Stream S A → Stream S B → Stream S B
    (m >> k) s = and_then (m s) (λ _. k)
