-- ===== src/Transaction/RoundTrip.antt =====
-- core/src/core/transaction.rs: kernel features that are written are read back, in every version of
-- the protocol and through every reader.
use grin.Prelude.{
  ℕ, ◌≤◌, ◌≡◌, length, length-append, refl, ap, sym, ◌∙◌, arith, Bool, true, false, leb,
  if◌then◌else◌, ok, List, [], replicate, ◌++◌, Bool-cases, ◌⊎◌, inl, inr,
}
use grin.Ser.Types.{ByteOrder, is_hash_mode, full, hash, SerializationMode}
use grin.Ser.Writer.{Writer}
use grin.Ser.Reader.{Reader}
use grin.Ser.Laws.{Reads, ReaderLaws}
use grin.Transaction.Kernel.{
  KernelFeatures, plain, coinbase, height_locked, no_recent_duplicate, is_nrd,
}
use grin.Transaction.KernelCodec.{write, read}
use grin.Transaction.KernelBytes.{IsValid, bytes_v1, bytes_v2, written, done, writes_v1, writes_v2}
use grin.Transaction.KernelReads.{Reads-v1, Reads-v2}

-- The bytes that are written, by mode and version.
unfoldable pub encoded : ByteOrder → Writer → KernelFeatures → List ℕ
encoded order w f = if leb (w.version) 1 then bytes_v1 order f else bytes_v2 order f

not_hash : (w : Writer) → w.mode ≡ full → is_hash_mode (w.mode) ≡ false
unfolding is_hash_mode
not_hash w e = rw e refl

pub writes :
    (order : ByteOrder) (f : KernelFeatures) (w : Writer)
    → w.mode ≡ full
    → write order f w ≡ done order (written order w (encoded order w f))
unfolding write encoded
writes order f w e = elim (Bool-cases (leb (w.version) 1)) [
  | inl old ↦ rw (not_hash w e, old) (writes_v1 order f w)
  | inr new ↦ rw (not_hash w e, new) (writes_v2 order f w)
]

module _ {order : ByteOrder} {S : Type 0} {r : Reader S} (laws : ReaderLaws order S r)
    (nrd_enabled : Bool) where
  pub reads :
      (f : KernelFeatures) (w : Writer) (s : S) (rest : List ℕ)
      → IsValid f
      → (is_nrd f ≡ false) ⊎ (nrd_enabled ≡ true)
      → r.protocol_version s ≡ w.version
      → laws.remaining s ≡ encoded order w f ++ rest
      → Reads r (laws.remaining) s f rest (read r nrd_enabled s)
  unfolding read encoded
  reads f w s rest valid flag ev e = elim (Bool-cases (leb (w.version) 1)) [
    | inl old ↦
        let (s', es, er, ev') = Reads-v1 laws nrd_enabled f s rest valid flag (rw old at e) in
        (s', rw (ev, old) es, er, ev')
    | inr new ↦
        let (s', es, er, ev') = Reads-v2 laws nrd_enabled f s rest valid flag (rw new at e) in
        (s', rw (ev, new) es, er, ev')
  ]

-- Valid features that a writer in full mode writes to an empty sink are read back by every reader
-- with the same protocol version, whatever bytes follow, and exactly those bytes are left. NRD
-- features are read where the flag allows them.
pub read-write :
    (order : ByteOrder) (S : Type 0) (r : Reader S) (laws : ReaderLaws order S r)
    (nrd_enabled : Bool) (f : KernelFeatures) (w : Writer) (s : S) (rest : List ℕ)
    → IsValid f
    → (is_nrd f ≡ false) ⊎ (nrd_enabled ≡ true)
    → w.mode ≡ full
    → w.sink ≡ []
    → r.protocol_version s ≡ w.version
    → (w' : Writer) → write order f w ≡ ok (tt, w')
    → laws.remaining s ≡ w'.sink ++ rest
    → (s' : S) × (read r nrd_enabled s ≡ ok (f, s'))
      × (laws.remaining s' ≡ rest)
      × (r.protocol_version s' ≡ r.protocol_version s)
read-write order S r laws nrd_enabled f w s rest valid flag em es ev w' ew e =
    let made : done order (written order w (encoded order w f)) ≡ done order w' =
      sym (writes order f w em) ∙ ew in
    let same : written order w (encoded order w f) ≡ w' = cc made in
    let bytes : w'.sink ≡ encoded order w f =
      sym (ap (λ (v : Writer). v.sink) same) ∙ ap (λ (bs : List ℕ). bs ++ encoded order w f) es in
    reads laws nrd_enabled f w s rest valid flag ev (e ∙ ap (λ (bs : List ℕ). bs ++ rest) bytes)

length-bytes_v1 : (order : ByteOrder) (f : KernelFeatures) → length (bytes_v1 order f) ≡ 17
length-bytes_v1 order (plain fee) = omega (
  arith,
  length-append (order.write_uint 8 (fee.bits)) (replicate 8 0),
  order.length-write_uint 8 (fee.bits),
)
length-bytes_v1 order coinbase = refl
length-bytes_v1 order (height_locked fee h) = omega (
  arith,
  length-append (order.write_uint 8 (fee.bits)) (order.write_uint 8 h),
  order.length-write_uint 8 (fee.bits),
  order.length-write_uint 8 h,
)
length-bytes_v1 order (no_recent_duplicate fee h) = omega (
  arith,
  length-append (order.write_uint 8 (fee.bits)) (replicate 6 0 ++ order.write_uint 2 (h.height)),
  order.length-write_uint 8 (fee.bits),
  order.length-write_uint 2 (h.height),
)

length-bytes_v2 : (order : ByteOrder) (f : KernelFeatures) → length (bytes_v2 order f) ≤ 17
length-bytes_v2 order (plain fee) = omega (arith, order.length-write_uint 8 (fee.bits))
length-bytes_v2 order coinbase = omega arith
length-bytes_v2 order (height_locked fee h) = omega (
  arith,
  length-append (order.write_uint 8 (fee.bits)) (order.write_uint 8 h),
  order.length-write_uint 8 (fee.bits),
  order.length-write_uint 8 h,
)
length-bytes_v2 order (no_recent_duplicate fee h) = omega (
  arith,
  length-append (order.write_uint 8 (fee.bits)) (order.write_uint 2 (h.height)),
  order.length-write_uint 8 (fee.bits),
  order.length-write_uint 2 (h.height),
)

Written : ByteOrder → KernelFeatures → Writer → Type 0
Written order f w =
    (w' : Writer) × (bytes : List ℕ) × (write order f w ≡ ok (tt, w'))
    × (w'.sink ≡ w.sink ++ bytes)
    × (length bytes ≤ 17)
    × ((w.mode ≡ full) ⊎ (length bytes ≡ 17))

full_mode : (m : SerializationMode) → is_hash_mode m ≡ false → m ≡ full
unfolding is_hash_mode
full_mode full e = refl
full_mode hash e = cc

by_mode :
    (order : ByteOrder) (f : KernelFeatures) (w : Writer)
    → (is_hash_mode (w.mode) ≡ true) ⊎ (is_hash_mode (w.mode) ≡ false)
    → (leb (w.version) 1 ≡ true) ⊎ (leb (w.version) 1 ≡ false)
    → Written order f w
unfolding write Written
by_mode order f w (inl m) v =
    let len = length-bytes_v1 order f in
    (
      written order w (bytes_v1 order f),
      bytes_v1 order f,
      rw m (writes_v1 order f w),
      refl,
      omega arith,
      inr len,
    )
by_mode order f w (inr m) (inl v) =
    let len = length-bytes_v1 order f in
    (
      written order w (bytes_v1 order f),
      bytes_v1 order f,
      rw (m, v) (writes_v1 order f w),
      refl,
      omega arith,
      inr len,
    )
by_mode order f w (inr m) (inr v) = (
  written order w (bytes_v2 order f),
  bytes_v2 order f,
  rw (m, v) (writes_v2 order f w),
  refl,
  length-bytes_v2 order f,
  inl (full_mode (w.mode) m),
)

-- Writing always succeeds and keeps what was in the sink. In hash mode, whatever the version, it
-- adds 17 bytes, and in full mode at most as many.
pub write-length :
    (order : ByteOrder) (f : KernelFeatures) (w : Writer)
    → (w' : Writer) × (bytes : List ℕ) × (write order f w ≡ ok (tt, w'))
      × (w'.sink ≡ w.sink ++ bytes)
      × (length bytes ≤ 17)
      × ((w.mode ≡ full) ⊎ (length bytes ≡ 17))
unfolding Written
write-length order f w =
    by_mode order f w (Bool-cases (is_hash_mode (w.mode))) (Bool-cases (leb (w.version) 1))
