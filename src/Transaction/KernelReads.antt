-- ===== src/Transaction/KernelReads.antt =====
-- core/src/core/transaction.rs: what is read from the bytes of kernel features, through any reader.
use grin.Prelude.{
  ℕ, ◌^◌, ◌≤◌, ◌<◌, ◌≡◌, refl, ap, ◌∙◌, arith, Bool, true, false, ok, List, ◌∷◌, replicate, ◌++◌,
  ◌⊎◌, inl, inr,
}
use mathlib.Core.List.{append_assoc}
use grin.Ser.Types.{ByteOrder}
use grin.Ser.Stream.{Stream}
use grin.Ser.Reader.{Reader}
use grin.Ser.Laws.{Reads, ReaderLaws, Reads-empty}
use grin.Transaction.Fee.{FeeFields}
use grin.Transaction.Kernel.{
  NrdRelativeHeight, nrd_max, try_from_u16, KernelFeatures, plain, coinbase, height_locked,
  no_recent_duplicate, is_nrd,
}
use grin.Transaction.KernelCodec.{
  read_fee, read_height, height_or_corrupted, read_plain_v1, read_plain_v2, read_coinbase_v1,
  read_height_locked, read_nrd_v1, read_nrd_v2, guard_nrd, match_features, read_v1, read_v2,
}
use grin.Transaction.KernelBytes.{IsValid, bytes_v1, bytes_v2}

-- What a reader gives for bytes of features, where the NRD flag allows them.
from_u16 :
    (h : NrdRelativeHeight) → 0 < h.height → h.height ≤ nrd_max → try_from_u16 (h.height) ≡ ok h
unfolding try_from_u16
from_u16 h pos le = ground arith

behind : (b : ℕ) (xs ys zs : List ℕ) → b ∷ ((xs ++ ys) ++ zs) ≡ b ∷ (xs ++ (ys ++ zs))
behind b xs ys zs = ap (λ (bs : List ℕ). b ∷ bs) (append_assoc xs ys zs)

module _ {order : ByteOrder} {S : Type 0} {r : Reader S} (laws : ReaderLaws order S r)
    (nrd_enabled : Bool) where
  Reads-fee :
      (s : S) (fee : FeeFields) (rest : List ℕ)
      → fee.bits < 2 ^ 64
      → laws.remaining s ≡ order.write_uint 8 (fee.bits) ++ rest
      → Reads r (laws.remaining) s fee rest (read_fee r nrd_enabled s)
  unfolding read_fee
  Reads-fee s fee rest b e =
      let (s1, e1, r1, v1) = laws.reads_u64 s (fee.bits) rest b e in (s1, rw e1 refl, r1, v1)

  Reads-height :
      (s : S) (h : NrdRelativeHeight) (rest : List ℕ)
      → 0 < h.height
      → h.height ≤ nrd_max
      → laws.remaining s ≡ order.write_uint 2 (h.height) ++ rest
      → Reads r (laws.remaining) s h rest (read_height r nrd_enabled s)
  unfolding read_height height_or_corrupted
  Reads-height s h rest pos le e =
      let (s1, e1, r1, v1) = laws.reads_u16 s (h.height) rest (omega arith) e in
      (s1, rw (e1, from_u16 h pos le) refl, r1, v1)

  Reads-locked :
      (s : S) (fee : FeeFields) (lock_height : ℕ) (rest : List ℕ)
      → fee.bits < 2 ^ 64
      → lock_height < 2 ^ 64
      → laws.remaining s ≡ order.write_uint 8 (fee.bits) ++ (order.write_uint 8 lock_height ++ rest)
      → Reads r
          (laws.remaining)
          s
          (height_locked fee lock_height)
          rest
          (read_height_locked r nrd_enabled s)
  unfolding read_height_locked
  Reads-locked s fee lock_height rest b lb e =
      let (s1, e1, r1, v1) = Reads-fee s fee (order.write_uint 8 lock_height ++ rest) b e in
      let (s2, e2, r2, v2) = laws.reads_u64 s1 lock_height rest lb r1 in
      (s2, rw (e1, e2) refl, r2, v2 ∙ v1)

  guard_on :
      (fee : FeeFields) (h : NrdRelativeHeight)
      → (is_nrd (no_recent_duplicate fee h) ≡ false) ⊎ (nrd_enabled ≡ true)
      → (arm : Stream S KernelFeatures) → guard_nrd r nrd_enabled arm ≡ arm
  unfolding is_nrd guard_nrd
  guard_on fee h (inl e) arm = cc
  guard_on fee h (inr e) arm = rw e refl

  pub Reads-v1 :
      (f : KernelFeatures) (s : S) (rest : List ℕ)
      → IsValid f
      → (is_nrd f ≡ false) ⊎ (nrd_enabled ≡ true)
      → laws.remaining s ≡ bytes_v1 order f ++ rest
      → Reads r (laws.remaining) s f rest (read_v1 r nrd_enabled s)
  unfolding IsValid read_v1 match_features read_plain_v1 read_coinbase_v1 read_nrd_v1
  Reads-v1 (plain fee) s rest valid flag e =
      let (s1, e1, r1, v1) =
        laws.reads_u8 s 0 (order.write_uint 8 (fee.bits) ++ (replicate 8 0 ++ rest))
          (e ∙ behind 0 (order.write_uint 8 (fee.bits)) (replicate 8 0) rest) in
      let (s2, e2, r2, v2) = Reads-fee s1 fee (replicate 8 0 ++ rest) valid r1 in
      let (s3, e3, r3, v3) = Reads-empty laws 8 s2 rest r2 in
      (s3, rw (e1, e2, e3) refl, r3, v3 ∙ (v2 ∙ v1))
  Reads-v1 coinbase s rest valid flag e =
      let (s1, e1, r1, v1) = laws.reads_u8 s 1 (replicate 16 0 ++ rest) e in
      let (s2, e2, r2, v2) = Reads-empty laws 16 s1 rest r1 in (s2, rw (e1, e2) refl, r2, v2 ∙ v1)
  Reads-v1 (height_locked fee lock_height) s rest valid flag e =
      let (s1, e1, r1, v1) =
        laws.reads_u8 s 2
          (order.write_uint 8 (fee.bits) ++ (order.write_uint 8 lock_height ++ rest))
          (e ∙ behind 2 (order.write_uint 8 (fee.bits)) (order.write_uint 8 lock_height) rest) in
      let (s2, e2, r2, v2) = Reads-locked s1 fee lock_height rest (valid.0) (valid.1) r1 in
      (s2, rw (e1, e2) refl, r2, v2 ∙ v1)
  Reads-v1 (no_recent_duplicate fee h) s rest valid flag e =
      let coded = order.write_uint 2 (h.height) ++ rest in
      let (s1, e1, r1, v1) =
        laws.reads_u8 s 3 (order.write_uint 8 (fee.bits) ++ (replicate 6 0 ++ coded)) (
          e
          ∙ behind 3 (order.write_uint 8 (fee.bits))
              (replicate 6 0 ++ order.write_uint 2 (h.height)) rest) in
      let (s2, e2, r2, v2) = Reads-fee s1 fee (replicate 6 0 ++ coded) (valid.0) r1 in
      let (s3, e3, r3, v3) = Reads-empty laws 6 s2 coded r2 in
      let (s4, e4, r4, v4) = Reads-height s3 h rest (valid.1) (valid.2) r3 in
      (
        s4,
        rw (e1, guard_on fee h flag (read_nrd_v1 r nrd_enabled), e2, e3, e4) refl,
        r4,
        v4 ∙ (v3 ∙ (v2 ∙ v1)),
      )

  pub Reads-v2 :
      (f : KernelFeatures) (s : S) (rest : List ℕ)
      → IsValid f
      → (is_nrd f ≡ false) ⊎ (nrd_enabled ≡ true)
      → laws.remaining s ≡ bytes_v2 order f ++ rest
      → Reads r (laws.remaining) s f rest (read_v2 r nrd_enabled s)
  unfolding IsValid read_v2 match_features read_plain_v2 read_nrd_v2
  Reads-v2 (plain fee) s rest valid flag e =
      let (s1, e1, r1, v1) = laws.reads_u8 s 0 (order.write_uint 8 (fee.bits) ++ rest) e in
      let (s2, e2, r2, v2) = Reads-fee s1 fee rest valid r1 in (s2, rw (e1, e2) refl, r2, v2 ∙ v1)
  Reads-v2 coinbase s rest valid flag e =
      let (s1, e1, r1, v1) = laws.reads_u8 s 1 rest e in (s1, rw e1 refl, r1, v1)
  Reads-v2 (height_locked fee lock_height) s rest valid flag e =
      let (s1, e1, r1, v1) =
        laws.reads_u8 s 2
          (order.write_uint 8 (fee.bits) ++ (order.write_uint 8 lock_height ++ rest))
          (e ∙ behind 2 (order.write_uint 8 (fee.bits)) (order.write_uint 8 lock_height) rest) in
      let (s2, e2, r2, v2) = Reads-locked s1 fee lock_height rest (valid.0) (valid.1) r1 in
      (s2, rw (e1, e2) refl, r2, v2 ∙ v1)
  Reads-v2 (no_recent_duplicate fee h) s rest valid flag e =
      let coded = order.write_uint 2 (h.height) ++ rest in
      let (s1, e1, r1, v1) =
        laws.reads_u8 s 3 (order.write_uint 8 (fee.bits) ++ coded)
          (e ∙ behind 3 (order.write_uint 8 (fee.bits)) (order.write_uint 2 (h.height)) rest) in
      let (s2, e2, r2, v2) = Reads-fee s1 fee coded (valid.0) r1 in
      let (s3, e3, r3, v3) = Reads-height s2 h rest (valid.1) (valid.2) r2 in
      (
        s3,
        rw (e1, guard_on fee h flag (read_nrd_v2 r nrd_enabled), e2, e3) refl,
        r3,
        v3 ∙ (v2 ∙ v1),
      )
