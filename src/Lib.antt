-- ===== src/Lib.antt =====
-- Grin, a Mimblewimble node: the rules of its consensus, its headers and blocks, its Merkle mountain
-- ranges, its binary format, its transactions and its proofs of work, and what the chain keeps
-- beside its blocks, modelled from the sources of the crates `core` and `chain`.
--
-- The parts:
-- - Global (core/src/global.rs): the parameters of the four chain types (Global/Chain), the weights
--   and sizes computed from them (Global/Limits), and the window of past headers that
--   difficulty_data_to_vector builds (Global/History). Global/Window is about its length.
-- - Consensus (core/src/consensus.rs): the constants (Consensus/Params), the header version
--   (Consensus/Version), the graph weight and the secondary proof-of-work ratio (Consensus/Weight)
--   and the two difficulty rules (Consensus/Difficulty), which take the window from Global.
--   Consensus/Retarget and Consensus/Schedule are about them.
-- - Pmmr (core/src/core/pmmr/pmmr.rs): the functions on positions, from peak_map_height to
--   bintree_range (Pmmr/Index). Pmmr/Ones gives the position of a leaf by its digit sum, Pmmr/Peaks
--   what the loop of peak_map_height computes; Pmmr/Leaves and Pmmr/Family rest on both.
--   Pmmr/VecBackend is the backend in memory (core/src/core/pmmr/vec_backend.rs) and Pmmr/Range the
--   PMMR over it: push, rewind, prune, root, merkle_proof, validate. Pmmr/Reference says what a
--   range of pushed elements means, with perfect trees at the places that Pmmr/Nodes gives;
--   Pmmr/Push, Pmmr/Tops, Pmmr/Root, Pmmr/Rewind, Pmmr/Validate and Pmmr/Consistent compare the
--   range with it. Pmmr/Split, Pmmr/Climb, Pmmr/Bagging, Pmmr/Reads, Pmmr/Inside, Pmmr/Proving,
--   Pmmr/PeakPath and Pmmr/Complete follow a Merkle proof of the range. Pmmr/MerkleProof and
--   Pmmr/MerkleCodec (core/src/core/merkle_proof.rs, core/src/core/hash.rs) verify a Merkle proof
--   along the positions, and write and read it through Ser.
-- - Ser (core/src/ser.rs): errors and modes (Ser/Types), BinWriter (Ser/Writer), the trait Reader
--   and what is read through it (Ser/Reader), BinReader and StreamingReader. Ser/Laws is the
--   interface of a reader, which Ser/BinLaws and Ser/StreamingLaws fill and the transactions'
--   reading takes. Ser/Fields has commitments, signatures and range proofs; Ser/Coding puts writers
--   and readers of parts together.
-- - Transaction (core/src/core/transaction.rs): fee fields (Transaction/Fee), kernel features
--   (Transaction/Kernel) and their binary format (Transaction/KernelCodec), inputs, outputs and
--   bodies (Transaction/Types) with their format (Transaction/BodyCodec), how an element is added
--   to a body (Transaction/Builder: with_input and its kin), fees, weights and checks of a body
--   (Transaction/Body), and the transaction around it (Transaction/TxCodec). Transaction/CutThrough
--   has cut_through with its swaps, Transaction/Sums the sums of commitments and offsets
--   (core/src/core/committed.rs), and Transaction/Aggregate the full validation and how
--   transactions are combined. The other files are about them.
-- - Block (core/src/core/block.rs): headers and blocks (Block/Header), the checks of a block and
--   how one is built from transactions or from a compact block (Block/Checks), which take the
--   checks of a body from Transaction. Block/Validation is about the full validation.
-- - Chain: Chain/ListIndex (chain/src/linked_list.rs) is the index of kernel positions by
--   commitment, Chain/ListCodec its format; Chain/Represents says which list the entries stand for,
--   and Chain/ListSpec what the traits promise of it. Chain/KernelRules
--   (chain/src/txhashset/txhashset.rs) is the rule of relative heights, which uses the index.
--   Chain/Orphans (chain/src/chain.rs) is the pool of orphan blocks over a type of blocks with
--   their hash and height; Chain/OrphanIndex, Chain/OrphanBound and Chain/OrphanPool are about it.
--   Chain/DifficultyIter (chain/src/store.rs) reads the past difficulties from the stored headers,
--   and Chain/Pipe (chain/src/pipe.rs) checks a header against the one before with them, by the
--   rules of Consensus. Chain/Guards, Chain/HeaderRules and Chain/HeaderChain are about these
--   checks.
-- - Pow (core/src/pow): SipHash 2-4 (Pow/SipHash), the parameters of a graph (Pow/Params), and the
--   verifiers of core/src/pow/cuckaroom.rs (Pow/Cuckaroom) and core/src/pow/cuckarood.rs
--   (Pow/Cuckarood). Pow/RoomLists, Pow/RoomCycle and Pow/RoomProof are about the first,
--   Pow/RoodLoop, Pow/RoodCycle and Pow/RoodProof about the second; Pow/Vectors and Pow/RoodVectors
--   run both. Pow/Difficulty (core/src/pow/types.rs) is the difficulty of a proof of work, from the
--   hash of its packed proof, and Pow/Targets is about it.
-- - Prelude: Rust's tests, words, slices, sorting, hash maps, Option and Result.
--
-- How the code is modelled:
-- - A word is a native number and the arithmetic is that of a release build: it wraps modulo 2 ^ w,
--   and a shift takes its amount modulo the width. Saturating methods stop at the largest word.
-- - A panic (a division by zero, an index out of range, an unwrap of None) is `none`; in the
--   verifiers of Pow, `none` is a check that has not returned.
-- - A reader and a writer are states that are passed on; an error ends the run.
-- - The chain type and the flag for NRD kernels, which the code keeps in thread-local and global
--   cells, are arguments.
-- - A commitment is the number with its 33 bytes as digits, so that its order is the order of the
--   bytes. Hashes (blake2) are functions of a record that the checks take, since hashable_ord!
--   compares by hash, and the hash of two children is an argument of a Merkle proof's verification.
--   The byteorder crate is a record with the laws of its numbers (Ser/Types), which Ser/BigEndian
--   shows to hold of big-endian digits.
-- - A HashMap is the list of its entries (Prelude/Maps). The pool of orphans gets the time as an
--   argument, and its two locks are held through a call, so that calls follow one another.
-- - A batch of the key-value store (LMDB) is a function from keys to values. Its reads and writes
--   succeed, and what was put is what is got, which the round trip of the values supports.
-- - The secp256k1 library is a record of functions (Transaction/Sums).
-- - sort_unstable leaves equal elements in any order; here they keep theirs.
-- - A hash of a range is a number, ZERO_HASH is 0, and the hash functions of an element and of two
--   children are parameters, functions of the position as well.
-- - The store of headers is a function from hashes, and reading what is there succeeds. The hash of
--   a header, the verifier of a proof of work and the caller's own rules are parts of the context.
--   A time is its seconds since 1970, and no time is before that.
--
-- Loops: peak_map_height runs on 64 rounds, since its peak size is halved from at most 64 digits,
-- and Pmmr/Peaks shows that they are enough. family_branch runs on as many rounds as the size,
-- since each round moves up. push has 64 rounds over the peaks in front: then its mask is 0, and
-- the loop ends. cut_through takes a round for each element and one more, and the rewind of the
-- kernel index at most one for each position up to the newest, which bounds the falling positions.
-- The inner loops of the verifiers follow lists of indices, and have a round for each index and
-- more; the walk of Cuckaroom has one for each edge and one more, that of Cuckarood as many as its
-- argument says. The counter of rounds in Cuckarood does not wrap here. All else is recursion on
-- lists and counts.
--
-- Not modelled: what is inside signatures, range proofs and commitments (secp256k1), the other
-- verifiers and the solver of a proof of work, the binary format of headers and blocks, the PMMR's
-- storage in files with its pruned subtrees, the rest of `chain`, and the crates around (api,
-- config, keychain, p2p, pool, servers, store, util, the executable).
pub mod Prelude
pub mod Global
pub mod Consensus
pub mod Pmmr
pub mod Ser
pub mod Transaction
pub mod Block
pub mod Chain
pub mod Pow
