-- ===== src/Pow/RoomCycle.antt =====
-- core/src/pow/cuckaroom.rs: the walk returns, and a check that succeeds has gone round a cycle through
-- all edges.
use grin.Prelude.{
  ℕ, zero, suc, ◌+◌, ◌<◌, ◌≤◌, ◌≡◌, ◌≢◌, ◌⊎◌, inl, inr, refl, sym, arith, List, [], ◌∷◌, length,
  All, ◌==◌, if◌then◌else◌, Bool, Bool-cases, ==_iff, Option, some, Result, ok, err, true, false,
  bit_and,
}
use grin.Prelude.Sorting.{IsDistinct, All-map}
use grin.Pow.Params.{PowError, branch_in_cycle, cycle_dead_ends}
use grin.Pow.Cuckaroom.{Room, update, walk}
use grin.Pow.RoomLists.{IsListed, find_from-ends}

-- From each edge to the one before it in the list, the latest first: where an edge ends, the next
-- one begins.
abbrev pub IsChain : (ℕ → ℕ) → (ℕ → ℕ) → ℕ → List ℕ → Type 0
IsChain from to next [] = next ≡ 0
IsChain from to next (i ∷ is) = (to i ≡ from next) × IsChain from to i is

-- How many below the size are not visited yet.
unfoldable pub unvisited : (ℕ → Bool) → ℕ → ℕ
unvisited visited zero = 0
unvisited visited (suc n) = (if visited n then 0 else 1) + unvisited visited n

unvisited-update_above :
    (visited : ℕ → Bool) (i n : ℕ)
    → n ≤ i
    → unvisited (update visited i true) n ≡ unvisited visited n
unfolding unvisited
unvisited-update_above visited i zero h = refl
unvisited-update_above visited i (suc n) h =
    let other : (i == n) ≡ false = ground arith in
    rw (other, unvisited-update_above visited i n (omega arith)) refl

unvisited-update :
    (visited : ℕ → Bool) (i n : ℕ)
    → i < n
    → visited i ≡ false
    → unvisited visited n ≡ suc (unvisited (update visited i true) n)
unfolding unvisited
unvisited-update visited i zero h new = absurd (omega arith)
unvisited-update visited i (suc n) h new = elim (Bool-cases (i == n)) [
  | inl same ↦
      let e = (==_iff i n).0 same in
      rw (same, ← e, new, unvisited-update_above visited i i (omega arith)) (omega arith)
  | inr other ↦ rw other (omega (arith, unvisited-update visited i n (ground arith) new))
]

unvisited-none : (n : ℕ) → unvisited (λ i. false) n ≡ n
unfolding unvisited
unvisited-none zero = refl
unvisited-none (suc n) = omega (arith, unvisited-none n)

-- A closed way through the edges: each ends where the next begins, none is taken twice.
pub record IsClosed (from to : ℕ → ℕ) (size n : ℕ) (path : List ℕ) : Type 0 where
  pub steps : length path ≡ n
  pub within : All (λ k. k < size) path
  pub distinct : IsDistinct path
  pub chain : IsChain from to 0 path

module _ (edge_of : ℕ → ℕ) (edge_mask node_mask mask : ℕ) where
  -- The path so far: what was visited, the latest first, leading to `i`.
  pub record IsPath (s : Room) (size : ℕ) (visited : ℕ → Bool) (n i : ℕ) (path : List ℕ)
      : Type 0 where
    pub inside : i < size
    pub steps : length path ≡ n
    pub left : unvisited visited size + n ≡ size
    pub within : All (λ k. k < size) path
    pub seen : All (λ k. visited k ≡ true) path
    pub distinct : IsDistinct path
    pub chain : IsChain (s.from) (s.to) i path

  pub IsPath-start : (s : Room) (size : ℕ) → 0 < size → IsPath s size (λ i. false) 0 0 []
  unfolding IsDistinct
  IsPath-start s size pos = record {
    inside = pos;
    steps = refl;
    left = let all = unvisited-none size in omega arith;
    within = tt;
    seen = tt;
    distinct = tt;
    chain = refl;
  }

  IsPath-next :
      (s : Room) (size : ℕ) (visited : ℕ → Bool) (n i j : ℕ) (path : List ℕ)
      → IsPath s size visited n i path
      → visited i ≡ false
      → j < size
      → s.from j ≡ s.to i
      → IsPath s size (update visited i true) (n + 1) j (i ∷ path)
  unfolding IsDistinct
  IsPath-next s size visited n i j path p new lt e =
      let after : (k : ℕ) → visited k ≡ true → update visited i true k ≡ true =
        λ k h. ground arith in
      let other : (k : ℕ) → visited k ≡ true → i ≢ k =
        λ k h same. let bad : visited k ≡ false = rw (← same) new in ground arith in
      record {
        inside = lt;
        steps = let c = p.steps in omega arith;
        left =
            let c = p.left in
            let one = unvisited-update visited i size (p.inside) new in omega arith;
        within = (p.inside, p.within);
        seen = (
          ground arith,
          All-map (λ k. visited k ≡ true) (λ k. update visited i true k ≡ true) path after (p.seen),
        );
        distinct = (All-map (λ k. visited k ≡ true) (λ k. i ≢ k) path other (p.seen), p.distinct);
        chain = (sym e, p.chain);
      }

  closed :
      {s : Room} {size n j : ℕ} {visited : ℕ → Bool} {path : List ℕ}
      → (j == 0) ≡ true
      → IsPath s size visited n j path
      → IsClosed (s.from) (s.to) size n path
  closed {s = s} {j = j} {path = path} back q =
      let origin : j ≡ 0 = (==_iff j 0).0 back in
      record {
        steps = q.steps;
        within = q.within;
        distinct = q.distinct;
        chain = rw (← origin) (q.chain);
      }

  abbrev pub WalkEnds : Room → ℕ → Option (Result PowError ℕ) → Type 0
  WalkEnds s size r =
      ((e : PowError) × (r ≡ some (err e)))
      ⊎ ((m : ℕ) × (r ≡ some (ok m)) × ((path : List ℕ) × IsClosed (s.from) (s.to) size m path))

  walk_on-ends :
      (fuel : ℕ) (s : Room) (size : ℕ) (visited : ℕ → Bool) (n i : ℕ) (path : List ℕ)
      → IsListed edge_of edge_mask node_mask mask size size s
      → IsPath s size visited n i path
      → unvisited visited size < fuel
      → WalkEnds s size (walk edge_of edge_mask node_mask mask fuel s size visited n i)
  unfolding walk
  walk_on-ends zero s size visited n i path l p enough = absurd (omega arith)
  walk_on-ends (suc fuel) s size visited n i path l p enough = elim (Bool-cases (visited i)) [
    | inl again ↦ rw again (inl (branch_in_cycle, refl))
    | inr new ↦
        let start = l.heads (bit_and (s.to i) mask) in
        elim (find_from-ends edge_of edge_mask node_mask mask (size + 2) s size (s.to i)
          (s.head (bit_and (s.to i) mask)) l (omega arith)
          (elim start [ inl none_left ↦ inl none_left | inr below ↦ inr (below, omega arith) ])) [
            | inl dead ↦ rw (new, dead) (inl (cycle_dead_ends, refl))
            | inr (j, found, lt, e) ↦
                let q = IsPath-next s size visited n i j path p new lt e in
                elim (Bool-cases (j == 0)) [
                  | inl back ↦ rw (new, found, back) (inr (n + 1, refl, (i ∷ path, closed back q)))
                  | inr on ↦
                      rw (new, found, on)
                        (walk_on-ends fuel s size (update visited i true) (n + 1) j (i ∷ path) l q
                          (let one = unvisited-update visited i size (p.inside) new in omega arith))
                ]
          ]
  ]

  pub walk-ends :
      (s : Room) (size : ℕ)
      → 0 < size
      → IsListed edge_of edge_mask node_mask mask size size s
      → WalkEnds s size (walk edge_of edge_mask node_mask mask (size + 1) s size (λ i. false) 0 0)
  walk-ends s size pos l =
      let all = unvisited-none size in
      walk_on-ends (size + 1) s size (λ i. false) 0 0 [] l (IsPath-start s size pos) (omega arith)
