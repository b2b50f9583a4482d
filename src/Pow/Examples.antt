-- ===== src/Pow/Examples.antt =====
-- core/src/pow: the test vectors of the sources, and the difficulty of a proof of work.
use grin.Prelude.{ℕ, ◌≡◌, refl, false, ◌+◌, ◌*◌, ◌^◌, ◌≤◌, ◌↔◌, arith, [], ◌∷◌, length}
use grin.Global.Chain.{ChainTypes}
use grin.Consensus.Difficulty.{from_num}
use grin.Pow.Difficulty.{Proof, ProofOfWork, to_difficulty, scaled_difficulty}
use grin.Pow.Targets.{to_difficulty_iff}
use grin.Pow.SipHash.{SipHash24, siphash24, siphash_block, hash, digest}

abbrev keys : ℕ → ℕ → ℕ → ℕ → SipHash24
keys a b c d = record { v0 = a; v1 = b; v2 = c; v3 = d }

hash_some : siphash24 (keys 1 2 3 4) 10 ≡ 928382149599306901
unfolding siphash24
hash_some = refl

hash_more : siphash24 (keys 9 7 6 7) 12 ≡ 1305683875471634734
unfolding siphash24
hash_more = refl

hash_block : siphash_block (keys 1 2 3 4) 123 21 false ≡ 11303676240481718781
unfolding siphash_block digest hash
hash_block = refl

abbrev some_pow : ProofOfWork
some_pow = record {
  total_difficulty = 0;
  secondary_scaling = 1856;
  nonce = 7;
  proof = record { edge_bits = 29; nonces = 1 ∷ 2 ∷ [] };
}

abbrev some_hash : Proof → ℕ
some_hash proof = 2 ^ 60 + length (proof.nonces)

-- The target is reached up to 29695, just below 16 times the scaling.
difficulty_of_some : to_difficulty some_hash ChainTypes.mainnet 10 some_pow ≡ 29695
unfolding to_difficulty scaled_difficulty from_num
difficulty_of_some = refl

to_difficulty_iff_example :
    (29695 ≤ to_difficulty some_hash ChainTypes.mainnet 10 some_pow)
    ↔ (29695 * (2 ^ 60 + 2) ≤ 1856 * 2 ^ 64)
to_difficulty_iff_example =
    to_difficulty_iff some_hash ChainTypes.mainnet 10 some_pow 29695 (omega arith) (omega arith)
      (omega arith)
