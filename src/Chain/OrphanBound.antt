-- ===== src/Chain/OrphanBound.antt =====
-- chain/src/chain.rs: evicting keeps the index and brings the pool under its bound.
use grin.Prelude.{
  ℕ, ◌<◌, ◌≡◌, inl, inr, arith, List, [], ◌∷◌, Bool, All, length, ltb, ◌==◌, Bool-cases, ==_iff,
  none, true, false, reverse,
}
use grin.Prelude.Sorting.{same, sort}
use grin.Prelude.Counting.{count, count-sort}
use grin.Prelude.Maps.{
  elem, find, remove, retain, keys, find-remove_other, find-remove_same, All-imply, count-reverse,
}
use grin.Chain.Orphans.{remove_hashes, evict_heights, any_kept, max_orphan_size}
use grin.Chain.OrphanIndex.{Entry, hashes, IsAt, All-remove_hashes, All-keys, All-both, elem-any}

module _ (Block : Type 0) (Options : Type 0) (hash : Block → ℕ) (height : Block → ℕ) where
  abbrev pub Item : Type 0
  Item = Entry Block Options hash height

  abbrev pub IsIn : List (ℕ × List ℕ) → Item → Type 0
  IsIn = IsAt Block Options hash height

  abbrev pub at_height : ℕ → List (ℕ × List ℕ) → List ℕ
  at_height = hashes Block Options hash height

  -- A height goes from the index with all its hashes.
  pub evict_height-IsAt :
      (t : ℕ) (idx : List (ℕ × List ℕ)) (os : List Item)
      → All (IsIn idx) os
      → All (IsIn (remove t idx)) (remove_hashes Block Options hash height (at_height t idx) os)
  evict_height-IsAt t idx os all =
      All-imply (λ e. IsIn idx e × (elem (e.0) (at_height t idx) ≡ false)) (IsIn (remove t idx))
        (remove_hashes Block Options hash height (at_height t idx) os)
        (λ e q. elim (Bool-cases (t == height (e.1.block))) [
          | inl same ↦
              let found = (==_iff t (height (e.1.block))).0 same in
              let there : elem (e.0) (at_height t idx) ≡ true = rw found (q.0.1) in
              let away = q.1 in absurd (ground arith)
          | inr other ↦ (q.0.0, rw (find-remove_other (height (e.1.block)) t idx other) (q.0.1))
        ])
        (All-remove_hashes Block Options hash height (IsIn idx) (at_height t idx) os all)

  abbrev pub Covers : List ℕ → List (ℕ × List ℕ) → Type 0
  Covers ts idx = (k h : ℕ) → elem h (at_height k idx) ≡ true → 0 < count same k ts

  Covers-remove :
      (t : ℕ) (ts : List ℕ) (idx : List (ℕ × List ℕ))
      → Covers (t ∷ ts) idx
      → Covers ts (remove t idx)
  Covers-remove t ts idx c k h e = elim (Bool-cases (t == k)) [
    | inl same ↦
        let gone : find k (remove t idx) ≡ none =
          rw ((==_iff t k).0 same) (find-remove_same k idx) in
        let bad = rw gone at e in ground arith
    | inr other ↦ let more = c k h (rw (find-remove_other k t idx other) at e) in ground arith
  ]

  Covers-keys : (idx : List (ℕ × List ℕ)) → Covers (keys idx) idx
  unfolding find keys
  Covers-keys [] k h e = ground arith
  Covers-keys ((t, hs) ∷ idx) k h e = elim (Bool-cases (t == k)) [
    | inl same ↦ rw same (omega arith)
    | inr other ↦ rw other (omega (arith, Covers-keys idx k h (rw other at e)))
  ]

  pub Covers-heights : (idx : List (ℕ × List ℕ)) → Covers (reverse (sort same (keys idx))) idx
  Covers-heights idx k h e =
      rw (count-reverse k (sort same (keys idx)), count-sort same same k (keys idx))
        (Covers-keys idx k h e)

  abbrev pub IsEvicted : List Item × List (ℕ × List ℕ) → Type 0
  IsEvicted r = (length (r.0) < max_orphan_size) × All (IsIn (r.1)) (r.0)

  pub evict_heights-IsEvicted :
      (ts : List ℕ) (os : List Item) (idx : List (ℕ × List ℕ))
      → Covers ts idx
      → All (IsIn idx) os
      → IsEvicted (evict_heights Block Options hash height ts os idx)
  unfolding evict_heights
  evict_heights-IsEvicted [] [] idx c all = (omega arith, tt)
  evict_heights-IsEvicted [] (e ∷ os) idx c all =
      let none_left = c (height (e.1.block)) (e.0) (all.0.1) in absurd (omega arith)
  evict_heights-IsEvicted (t ∷ ts) os idx c all =
      let left = remove_hashes Block Options hash height (at_height t idx) os in
      elim (Bool-cases (ltb (length left) max_orphan_size)) [
        | inl few ↦ rw few (ground arith, evict_height-IsAt t idx os all)
        | inr many ↦ rw many (
            evict_heights-IsEvicted ts left (remove t idx) (Covers-remove t ts idx c)
              (evict_height-IsAt t idx os all))
      ]

  elem-retain :
      (p : ℕ → List ℕ → Bool) (k t : ℕ) (idx : List (ℕ × List ℕ))
      → ((u : ℕ) (hs : List ℕ) → elem k hs ≡ true → p u hs ≡ true)
      → elem k (at_height t idx) ≡ true
      → elem k (at_height t (retain p idx)) ≡ true
  unfolding find retain
  elem-retain p k t [] kept e = e
  elem-retain p k t ((u, hs) ∷ idx) kept e = elim (Bool-cases (u == t)) [
    | inl same ↦ let h = rw same at e in rw (kept u hs h, same) h
    | inr other ↦ elim (Bool-cases (p u hs)) [
      | inl stays ↦ rw (stays, other) (elem-retain p k t idx kept (rw other at e))
      | inr goes ↦ rw goes (elem-retain p k t idx kept (rw other at e))
    ]
  ]

  -- Cleaning up takes no hash of an orphan from the index.
  pub retain-IsAt :
      (os : List Item) (idx : List (ℕ × List ℕ))
      → All (IsIn idx) os
      → All (IsIn (retain (any_kept Block Options hash height os) idx)) os
  retain-IsAt os idx all =
      All-imply (λ e. IsIn idx e × (elem (e.0) (keys os) ≡ true))
        (IsIn (retain (any_kept Block Options hash height os) idx)) os
        (λ e q. (
          q.0.0,
          elem-retain (any_kept Block Options hash height os) (e.0) (height (e.1.block)) idx
              (λ u hs has. elem-any (e.0) hs (keys os) has (q.1)) (q.0.1),
        ))
        (All-both (IsIn idx) (λ e. elem (e.0) (keys os) ≡ true) os all (All-keys os))
