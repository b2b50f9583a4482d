-- ===== src/Ser/Source.antt =====
-- core/src/ser.rs: what BinReader and StreamingReader read from, a source that holds bytes.
use grin.Prelude.{ℕ, List, [], ◌∷◌, Result, ok, err, leb, length, take, drop, if◌then◌else◌}
use grin.Ser.Types.{ErrorKind, unexpected_eof}

-- Read::read_exact: the bytes and what the source holds after them.
unfoldable pub read_exact : ℕ → List ℕ → Result ErrorKind (List ℕ × List ℕ)
read_exact len source =
    if leb len (length source) then ok (take len source, drop len source) else err unexpected_eof

pub data DeserializationMode : Type 0 where
  full : DeserializationMode
  skip_pow : DeserializationMode

-- The length of `buf` is known where its first byte is taken.
abbrev pub first : List ℕ → ℕ
first [] = 0
first (b ∷ bs) = b
