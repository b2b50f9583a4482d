-- ===== src/Ser/Reader.antt =====
-- core/src/ser.rs: the trait Reader with the methods that every reader defines, and what is read
-- through them.
use grin.Prelude.{Result, length, ℕ, zero, suc, List, [], ◌∷◌, ok, err, ◌==◌, ltb, if◌then◌else◌}
use grin.Ser.Types.{Error, corrupted_data, too_large_read_err, count_error, unexpected_data}
use grin.Ser.Stream.{Stream, pure, fail, ◌>>=◌}

pub record Reader (S : Type 0) : Type 0 where
  pub protocol_version : S → ℕ
  pub read_u8 : Stream S ℕ
  pub read_u16 : Stream S ℕ
  pub read_u32 : Stream S ℕ
  pub read_u64 : Stream S ℕ
  pub read_fixed_bytes : ℕ → Stream S (List ℕ)

module _ {S : Type 0} (r : Reader S) where
  -- All readers define expect_u8 in the same words.
  unfoldable pub expect_u8 : ℕ → Stream S ℕ
  expect_u8 val = do
    b ← r.read_u8
    if b == val then pure b else fail (unexpected_data (val ∷ []) (b ∷ []))

  unfoldable pub read_empty_bytes : ℕ → Stream S (Unit {0})
  read_empty_bytes zero = pure tt
  read_empty_bytes (suc len) =
      let rest = read_empty_bytes len in
      do b ← r.read_u8; if b == 0 then rest else fail corrupted_data

module _ {S A : Type 0} where
  -- IteratingReader collected: it ends at the count, or at the first item that cannot be read.
  unfoldable pub collect_step : Result Error (A × S) → (S → List A × S) → S → List A × S
  collect_step (ok next) continue s = let rest = continue (next.1) in (next.0 ∷ rest.0, rest.1)
  collect_step (err e) continue s = ([], s)

  unfoldable pub collect : Stream S A → ℕ → S → List A × S
  collect read zero s = ([], s)
  collect read (suc count) s = collect_step (read s) (λ next. collect read count next) s

  unfoldable pub read_multi : Stream S A → ℕ → Stream S (List A)
  read_multi read count s =
      let res = collect read count s in
      let counted = if length (res.0) == count then ok res else err count_error in
      if ltb 1000000 count then err too_large_read_err else counted
