-- ===== src/Pow/RoomLists.antt =====
-- core/src/pow/cuckaroom.rs: the bucket lists end, and the endpoints are those of the nonces.
use grin.Prelude.{
  ℕ, zero, suc, ◌+◌, ◌<◌, ◌≤◌, ◌≡◌, ◌⊎◌, inl, inr, refl, arith, List, [], ◌∷◌, length, All, ltb,
  ◌==◌, Bool-cases, ==_iff, Option, some, none, ok, err, true, false, bit_and,
}
use grin.Pow.Params.{cycle_dead_ends, low_node, high_node}
use grin.Pow.Cuckaroom.{Room, not_above, room_edge, room_edges, find_from}

-- The nonces rise, and none is above the mask.
abbrev pub IsRising : Option ℕ → List ℕ → Type 0
IsRising last [] = Unit {0}
IsRising none (x ∷ xs) = IsRising (some x) xs
IsRising (some last) (x ∷ xs) = (last < x) × IsRising (some x) xs

abbrev pub nth : List ℕ → ℕ → ℕ
nth [] i = 0
nth (x ∷ xs) zero = x
nth (x ∷ xs) (suc i) = nth xs i

-- From the first element and the later ones to all.
at_index :
    (f spec : ℕ → ℕ) (n x : ℕ) (xs : List ℕ)
    → f n ≡ spec x
    → ((i : ℕ) → i < length xs → f (n + 1 + i) ≡ spec (nth xs i))
    → (i : ℕ) → i < length (x ∷ xs)
    → f (n + i) ≡ spec (nth (x ∷ xs) i)
at_index f spec n x xs h later zero lt = let e : n + 0 ≡ n = omega arith in rw e h
at_index f spec n x xs h later (suc i) lt =
    let e : n + suc i ≡ n + 1 + i = omega arith in rw e (later i (omega arith))

abbrev pub from_node : (ℕ → ℕ) → ℕ → ℕ → ℕ
from_node edge_of node_mask nonce = low_node node_mask (edge_of nonce)

abbrev pub to_node : (ℕ → ℕ) → ℕ → ℕ → ℕ
to_node edge_of node_mask nonce = high_node node_mask (edge_of nonce)

module _ (edge_of : ℕ → ℕ) (edge_mask node_mask mask : ℕ) where
  -- Lists lead down to the end mark.
  pub record IsListed (size n : ℕ) (s : Room) : Type 0 where
    pub heads : (b : ℕ) → (s.head b ≡ size) ⊎ (s.head b < n)
    pub prevs : (k : ℕ) → k < n → (s.prev k ≡ size) ⊎ (s.prev k < k)

  room_edge-IsListed :
      (size n nonce : ℕ) (s : Room)
      → IsListed size n s
      → IsListed size (n + 1) (room_edge edge_of edge_mask node_mask mask n nonce s)
  unfolding room_edge
  room_edge-IsListed size n nonce s l =
      let bits = bit_and (low_node node_mask (edge_of nonce)) mask in
      record {
        heads = λ b. let h = l.heads b in ground arith;
        prevs = λ k lt. elim (Bool-cases (n == k)) [
          | inl same ↦ let h = l.heads bits in rw same (ground arith)
          | inr other ↦ rw other (l.prevs k (ground arith))
        ];
      }

  -- What is known of a list that was taken: its order, its bound, the lists and the endpoints.
  pub record IsTaken (size n : ℕ) (last : Option ℕ) (nonces : List ℕ) (s t : Room) : Type 0 where
    pub rising : IsRising last nonces
    pub small : All (λ x. x ≤ edge_mask) nonces
    pub listed : IsListed size (n + length nonces) t
    pub froms :
        (i : ℕ) → i < length nonces → t.from (n + i) ≡ from_node edge_of node_mask (nth nonces i)
    pub tos : (i : ℕ) → i < length nonces → t.to (n + i) ≡ to_node edge_of node_mask (nth nonces i)
    pub old : (k : ℕ) → k < n → (t.from k ≡ s.from k) × (t.to k ≡ s.to k)

  pub IsRising-step :
      (last : Option ℕ) (x : ℕ) (xs : List ℕ)
      → not_above last x ≡ false
      → IsRising (some x) xs
      → IsRising last (x ∷ xs)
  IsRising-step none x xs h r = r
  IsRising-step (some last) x xs h r = (ground arith, r)

  IsTaken-step :
      (size n x : ℕ) (last : Option ℕ) (xs : List ℕ) (s t : Room)
      → ltb edge_mask x ≡ false
      → not_above last x ≡ false
      → IsTaken size (n + 1) (some x) xs (room_edge edge_of edge_mask node_mask mask n x s) t
      → IsTaken size n last (x ∷ xs) s t
  unfolding room_edge
  IsTaken-step size n x last xs s t fits above h =
      let (from_n, to_n) = h.old n (omega arith) in
      let count : n + 1 + length xs ≡ n + suc (length xs) = omega arith in
      record {
        rising = IsRising-step last x xs above (h.rising);
        small = (ground arith, h.small);
        listed = rw (← count) (h.listed);
        froms = at_index (t.from) (from_node edge_of node_mask) n x xs (ground arith) (h.froms);
        tos = at_index (t.to) (to_node edge_of node_mask) n x xs (ground arith) (h.tos);
        old = λ k lt. let o = h.old k (omega arith) in ground arith;
      }

  pub room_edges-IsTaken :
      (size n : ℕ) (last : Option ℕ) (nonces : List ℕ) (s t : Room)
      → IsListed size n s
      → room_edges edge_of edge_mask node_mask mask n last nonces s ≡ ok t
      → IsTaken size n last nonces s t
  unfolding room_edges
  room_edges-IsTaken size n last [] s t l h =
      let e : s ≡ t = cc in
      let count : n + 0 ≡ n = omega arith in
      record {
        rising = tt;
        small = tt;
        listed = rw (count, ← e) l;
        froms = λ i lt. absurd (omega arith);
        tos = λ i lt. absurd (omega arith);
        old = λ k lt. rw e (refl, refl);
      }
  room_edges-IsTaken size n last (x ∷ xs) s t l h = elim (Bool-cases (ltb edge_mask x)) [
    | inl big ↦ let bad = rw big at h in cc
    | inr fits ↦ elim (Bool-cases (not_above last x)) [
      | inl low ↦ let bad = rw (fits, low) at h in cc
      | inr above ↦ IsTaken-step size n x last xs s t fits above (
          room_edges-IsTaken size (n + 1) (some x) xs
            (room_edge edge_of edge_mask node_mask mask n x s) t (room_edge-IsListed size n x s l)
            (rw (fits, above) at h))
    ]
  ]

  -- From any place in a list the loop ends, and what it finds is an edge from the node.
  pub find_from-ends :
      (fuel : ℕ) (s : Room) (size node k : ℕ)
      → IsListed size size s
      → 0 < fuel
      → (k ≡ size) ⊎ ((k < size) × (k + 1 < fuel))
      → (find_from edge_of edge_mask node_mask mask fuel s size node k ≡ some (err cycle_dead_ends))
        ⊎ ((j : ℕ) × (find_from edge_of edge_mask node_mask mask fuel s size node k ≡ some (ok j))
            × (j < size)
            × (s.from j ≡ node))
  unfolding find_from
  find_from-ends zero s size node k l pos place = absurd (omega arith)
  find_from-ends (suc fuel) s size node k l pos (inl end) =
      let at_end : (k == size) ≡ true = ground arith in rw at_end (inl refl)
  find_from-ends (suc fuel) s size node k l pos (inr (inside, enough)) =
      let within : (k == size) ≡ false = ground arith in
      elim (Bool-cases (s.from k == node)) [
        | inl found ↦ rw (within, found) (inr (k, refl, inside, (==_iff (s.from k) node).0 found))
        | inr other ↦
            let next : (s.prev k ≡ size) ⊎ ((s.prev k < size) × (s.prev k + 1 < fuel)) =
              elim (l.prevs k inside) [ inl e ↦ inl e | inr lt ↦ inr (omega arith, omega arith) ] in
            rw (within, other) (find_from-ends fuel s size node (s.prev k) l (omega arith) next)
      ]
