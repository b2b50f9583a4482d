-- ===== src/Pow/RoodCycle.antt =====
-- core/src/pow/cuckarood.rs: an accepted walk goes round once, and each round moves along an edge from
-- another endpoint at the node.
use grin.Prelude.{
  ℕ, zero, suc, ◌+◌, ◌*◌, ◌≤◌, ◌≡◌, ◌≢◌, refl, ap, inl, inr, arith, List, [], ◌∷◌, length, All,
  ◌==◌, ==_iff, Bool-cases, if◌then◌else◌, Option, some, none, Result, ok, err, true, false,
  bit_xor,
}
use grin.Prelude.Sorting.{IsDistinct, All-map}
use grin.Pow.Params.{PowError}
use grin.Pow.Cuckarood.{Rood, find_reverse, other_end, next_end, at_end, walk_rood}

-- The way from an endpoint back to the first one, the first time that it is met.
pub data Returns (next : ℕ → Option (Result PowError ℕ)) : ℕ → List ℕ → Type 0 where
  last_round : {i j : ℕ} → next i ≡ some (ok j) → (j == 0) ≡ true → Returns next i (i ∷ [])
  round_on :
      {i j : ℕ} {path : List ℕ}
      → next i ≡ some (ok j)
      → (j == 0) ≡ false
      → Returns next j path
      → Returns next i (i ∷ path)

module _ (next : ℕ → Option (Result PowError ℕ)) where
  same_next : {i k j l : ℕ} → i ≡ k → next i ≡ some (ok j) → next k ≡ some (ok l) → j ≡ l
  same_next e a b = let c = rw e at a in cc

  -- The way is that of the endpoint alone.
  length-Returns :
      {i k : ℕ} {p q : List ℕ} → i ≡ k → Returns next i p → Returns next k q → length p ≡ length q
  length-Returns e (last_round a z) (last_round b w) = refl
  length-Returns e (last_round a z) (round_on b w r) = let j = same_next e a b in ground arith
  length-Returns e (round_on a z r) (last_round b w) = let j = same_next e a b in ground arith
  length-Returns e (round_on a z r) (round_on b w t) = ap suc (length-Returns (same_next e a b) r t)

  -- Back from one of the endpoints on the way, in no more rounds than these.
  abbrev IsOnWay : ℕ → ℕ → Type 0
  IsOnWay n k = (q : List ℕ) × Returns next k q × (length q ≤ n)

  longer : (n m : ℕ) (ks : List ℕ) → n ≤ m → All (IsOnWay n) ks → All (IsOnWay m) ks
  longer n m ks le = All-map (IsOnWay n) (IsOnWay m) ks (λ k (q, r, few). (q, r, omega arith))

  on_way : {i : ℕ} {p : List ℕ} → Returns next i p → All (IsOnWay (length p)) p
  on_way {i = i} (last_round a z) = ((i ∷ [], last_round a z, omega arith), tt)
  on_way {i = i} (round_on {path = path} a z r) = (
    (i ∷ path, round_on a z r, omega arith),
    longer (length path) (length (i ∷ path)) path (omega arith) (on_way r),
  )

  pub Returns-IsDistinct : {i : ℕ} {p : List ℕ} → Returns next i p → IsDistinct p
  unfolding IsDistinct
  Returns-IsDistinct (last_round a z) = (tt, tt)
  Returns-IsDistinct {i = i} (round_on {path = path} a z r) = (
    All-map (IsOnWay (length path)) (λ k. i ≢ k) path
        (λ k (q, t, few) same.
          let equal = length-Returns same (round_on a z r) t in absurd (omega arith))
        (on_way r),
    Returns-IsDistinct r,
  )

-- The next endpoint is the other end of an edge with another endpoint at the node of this one.
pub record IsLinked (s : Rood) (i j : ℕ) : Type 0 where
  pub match : ℕ
  pub apart : match ≢ i
  pub at_node : s.uvs match ≡ s.uvs i
  pub across : j ≡ bit_xor match 1

-- From an endpoint through those of the list back to the first one.
abbrev pub IsWay : Rood → ℕ → List ℕ → Type 0
IsWay s i [] = IsLinked s i 0
IsWay s i (j ∷ path) = IsLinked s i j × IsWay s j path

module _ (edge_of : ℕ → ℕ) (edge_mask node_mask mask : ℕ) where
  abbrev round_from : Rood → ℕ → ℕ → Option (Result PowError ℕ)
  round_from = next_end edge_of edge_mask node_mask mask

  find_reverse-at_node :
      (fuel : ℕ) (s : Rood) (size i j k m : ℕ)
      → s.uvs j ≡ s.uvs i
      → find_reverse edge_of edge_mask node_mask mask fuel s size i j k ≡ some (ok m)
      → s.uvs m ≡ s.uvs i
  unfolding find_reverse
  find_reverse-at_node zero s size i j k m e h = cc
  find_reverse-at_node (suc fuel) s size i j k m e h = elim (Bool-cases (k == 2 * size)) [
    | inl end ↦ let found = rw end at h in let same : j ≡ m = cc in rw (← same) e
    | inr on ↦ elim (Bool-cases (s.uvs k == s.uvs i)) [
      | inr other ↦ find_reverse-at_node fuel s size i j (s.prev k) m e (rw (on, other) at h)
      | inl there ↦ elim (Bool-cases (j == i)) [
        | inl first ↦
            find_reverse-at_node fuel s size i k (s.prev k) m ((==_iff (s.uvs k) (s.uvs i)).0 there)
              (rw (on, there, first) at h)
        | inr second ↦ let bad = rw (on, there, second) at h in cc
      ]
    ]
  ]

  other_end-IsLinked :
      (s : Rood) (i j : ℕ) (r : Option (Result PowError ℕ))
      → ((m : ℕ) → r ≡ some (ok m) → s.uvs m ≡ s.uvs i)
      → other_end edge_of edge_mask node_mask mask i r ≡ some (ok j)
      → IsLinked s i j
  other_end-IsLinked s i j none at h = absurd cc
  other_end-IsLinked s i j (some (err e)) at h = absurd cc
  other_end-IsLinked s i j (some (ok m)) at h = elim (Bool-cases (m == i)) [
    | inl alone ↦ let bad = rw alone at h in absurd cc
    | inr other ↦
        let e : some (ok (bit_xor m 1)) ≡ some (ok j) = rw other at h in
        record { match = m; apart = ground arith; at_node = at m refl; across = cc }
  ]

  next_end-IsLinked : (s : Rood) (size i j : ℕ) → round_from s size i ≡ some (ok j) → IsLinked s i j
  unfolding next_end
  next_end-IsLinked s size i j h =
      other_end-IsLinked s i j _ (λ m e. find_reverse-at_node (2 * size + 1) s size i i _ m refl e)
        h

  pub Returns-IsWay :
      (s : Rood) (size : ℕ) {i : ℕ} {p : List ℕ}
      → Returns (round_from s size) i p
      → (path : List ℕ) × (p ≡ i ∷ path) × IsWay s i path
  Returns-IsWay s size {i} (last_round {j = j} a z) =
      let origin = (==_iff j 0).0 z in ([], refl, next_end-IsLinked s size i 0 (rw origin at a))
  Returns-IsWay s size {i} (round_on {j = j} {path = path} a z r) =
      let (rest, e, way) = Returns-IsWay s size r in
      (path, refl, rw e (next_end-IsLinked s size i j a, way))

  from_round :
      (fuel : ℕ) (s : Rood) (size n i r : ℕ) (x : Option (Result PowError ℕ))
      → ((k : ℕ)
          → walk_rood edge_of edge_mask node_mask mask fuel s size (n + 1) k ≡ some (ok r)
          → (p : List ℕ) × Returns (round_from s size) k p × (n + 1 + length p ≡ r))
      → round_from s size i ≡ x
      → at_end edge_of edge_mask node_mask mask x (λ k.
        let more = walk_rood edge_of edge_mask node_mask mask fuel s size (n + 1) k in
        if k == 0 then some (ok (n + 1)) else more)
        ≡ some (ok r)
      → (p : List ℕ) × Returns (round_from s size) i p × (n + length p ≡ r)
  from_round fuel s size n i r none ih e h = absurd cc
  from_round fuel s size n i r (some (err f)) ih e h = absurd cc
  from_round fuel s size n i r (some (ok k)) ih e h = elim (Bool-cases (k == 0)) [
    | inl back ↦
        let done : some (ok (n + 1)) ≡ some (ok r) = rw back at h in (i ∷ [], last_round e back, cc)
    | inr on ↦ let (p, t, count) = ih k (rw on at h) in (i ∷ p, round_on e on t, omega arith)
  ]

  pub walk_rood-Returns :
      (fuel : ℕ) (s : Rood) (size n i r : ℕ)
      → walk_rood edge_of edge_mask node_mask mask fuel s size n i ≡ some (ok r)
      → (p : List ℕ) × Returns (round_from s size) i p × (n + length p ≡ r)
  unfolding walk_rood
  walk_rood-Returns zero s size n i r h = absurd cc
  walk_rood-Returns (suc fuel) s size n i r h =
      from_round fuel s size n i r (round_from s size i)
        (λ k. walk_rood-Returns fuel s size (n + 1) k r) refl h

  pub Returns-walk_rood :
      (fuel : ℕ) (s : Rood) (size n : ℕ) {i : ℕ} {p : List ℕ}
      → Returns (round_from s size) i p
      → length p ≤ fuel
      → walk_rood edge_of edge_mask node_mask mask fuel s size n i ≡ some (ok (n + length p))
  unfolding walk_rood
  Returns-walk_rood zero s size n (last_round a z) few = absurd (omega arith)
  Returns-walk_rood zero s size n (round_on a z r) few = absurd (omega arith)
  Returns-walk_rood (suc fuel) s size n (last_round a z) few = rw (a, z) refl
  Returns-walk_rood (suc fuel) s size n (round_on {path = path} a z r) few =
      let count : n + 1 + length path ≡ n + suc (length path) = omega arith in
      rw (a, z, ← count) (Returns-walk_rood fuel s size (n + 1) r (omega arith))
