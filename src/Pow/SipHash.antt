-- ===== src/Pow/SipHash.antt =====
-- core/src/pow/siphash.rs: SipHash 2-4 with a rotation as its parameter, and its hash of a block.
use grin.Prelude.{
  ℕ, zero, suc, ◌+◌, ◌-◌, ◌*◌, ◌/◌, ◌%◌, ◌^◌, List, [], ◌∷◌, Bool, add64, bit_xor, ◌==◌, ◌||◌,
  if◌then◌else◌, get_elem?, drop, Option, none, some,
}

-- u64::rotate_left.
abbrev pub rotl : ℕ → ℕ → ℕ
rotl x shift = x * 2 ^ shift % 2 ^ 64 + x / 2 ^ (64 - shift)

pub record SipHash24 : Type 0 where
  pub v0 : ℕ
  pub v1 : ℕ
  pub v2 : ℕ
  pub v3 : ℕ

-- The lines of a round, two words at a time.
abbrev pub round : ℕ → SipHash24 → SipHash24
round rot_e s =
    let a0 = add64 (s.v0) (s.v1) in
    let a2 = add64 (s.v2) (s.v3) in
    let a1 = bit_xor (rotl (s.v1) 13) a0 in
    let a3 = bit_xor (rotl (s.v3) 16) a2 in
    let b0 = rotl a0 32 in
    let c2 = add64 a2 a1 in
    let c0 = add64 b0 a3 in
    let c1 = bit_xor (rotl a1 17) c2 in
    let c3 = bit_xor (rotl a3 rot_e) c0 in record { v0 = c0; v1 = c1; v2 = rotl c2 32; v3 = c3 }

unfoldable pub rounds : ℕ → ℕ → SipHash24 → SipHash24
rounds zero rot_e s = s
rounds (suc n) rot_e s = rounds n rot_e (round rot_e s)

unfoldable pub hash : ℕ → ℕ → SipHash24 → SipHash24
unfolding rounds
hash nonce rot_e s =
    let t =
      rounds 2 rot_e (record { v0 = s.v0; v1 = s.v1; v2 = s.v2; v3 = bit_xor (s.v3) nonce }) in
    rounds 4 rot_e
      (record { v0 = bit_xor (t.v0) nonce; v1 = t.v1; v2 = bit_xor (t.v2) 0xff; v3 = t.v3 })

unfoldable pub digest : SipHash24 → ℕ
digest s = bit_xor (bit_xor (s.v0) (s.v1)) (bit_xor (s.v2) (s.v3))

unfoldable pub siphash24 : SipHash24 → ℕ → ℕ
unfolding hash digest
siphash24 keys nonce = digest (hash nonce 21 keys)

abbrev pub siphash_block_size : ℕ
siphash_block_size = 64

abbrev pub siphash_block_mask : ℕ
siphash_block_mask = 63

-- The loop over the block: one state is hashed on, and each digest is kept.
unfoldable pub block_hashes : ℕ → ℕ → ℕ → SipHash24 → List ℕ
block_hashes zero nonce rot_e s = []
block_hashes (suc n) nonce rot_e s =
    let t = hash nonce rot_e s in digest t ∷ block_hashes n (nonce + 1) rot_e t

unfoldable pub xor_all_of : ℕ → List ℕ → ℕ
xor_all_of acc [] = acc
xor_all_of acc (x ∷ xs) = xor_all_of (bit_xor acc x) xs

abbrev at : Option ℕ → ℕ
at none = 0
at (some x) = x

-- `nonce & !MASK` and `nonce & MASK` are the block and the place in it.
unfoldable pub siphash_block : SipHash24 → ℕ → ℕ → Bool → ℕ
unfolding block_hashes xor_all_of
siphash_block keys nonce rot_e xor_all =
    let nonce_i = nonce % siphash_block_size in
    let hashes = block_hashes siphash_block_size (nonce - nonce_i) rot_e keys in
    let xor_from =
      if xor_all || nonce_i == siphash_block_mask then nonce_i + 1 else siphash_block_mask in
    xor_all_of (at (get_elem? hashes nonce_i)) (drop xor_from hashes)
