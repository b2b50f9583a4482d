-- ===== src/Chain/OrphanIndex.antt =====
-- chain/src/chain.rs: the index of heights leads to every orphan of the pool.
use grin.Prelude.{
  ℕ, ◌≡◌, refl, inl, inr, arith, List, [], ◌∷◌, ◌++◌, Bool, any, All, ◌==◌, Bool-cases, ==_iff,
  true, false,
}
use grin.Prelude.Maps.{elem, find, remove, put, keys, find-remove_other, All-remove, All-imply}
use grin.Chain.Orphans.{Orphan, hashes_at, push_hash, remove_hashes}

elem-append : (h : ℕ) (xs ys : List ℕ) → elem h xs ≡ true → elem h (xs ++ ys) ≡ true
elem-append h [] ys e = ground arith
elem-append h (x ∷ xs) ys e = elim (Bool-cases (x == h)) [
  | inl same ↦ rw same refl
  | inr other ↦ rw other (elem-append h xs ys (rw other at e))
]

elem-append_last : (h : ℕ) (xs : List ℕ) → elem h (xs ++ h ∷ []) ≡ true
elem-append_last h [] = ground arith
elem-append_last h (x ∷ xs) = elim (Bool-cases (x == h)) [
  | inl same ↦ rw same refl
  | inr other ↦ rw other (elem-append_last h xs)
]

pub elem-any :
    (k : ℕ) (hs ks : List ℕ) → elem k hs ≡ true → elem k ks ≡ true → any (λ h. elem h ks) hs ≡ true
elem-any k [] ks e f = ground arith
elem-any k (h ∷ hs) ks e f = elim (Bool-cases (h == k)) [
  | inl same ↦ let found = (==_iff h k).0 same in rw (found, f) refl
  | inr other ↦ elim (Bool-cases (elem h ks)) [
    | inl kept ↦ rw kept refl
    | inr gone ↦ rw gone (elem-any k hs ks (rw other at e) f)
  ]
]

module _ {A : Type 0} where
  pub All-keys : (m : List (ℕ × A)) → All (λ (e : ℕ × A). elem (e.0) (keys m) ≡ true) m
  unfolding keys
  All-keys [] = tt
  All-keys ((k, x) ∷ m) = (
    ground arith,
    All-imply (λ (e : ℕ × A). elem (e.0) (keys m) ≡ true)
        (λ (e : ℕ × A). elem (e.0) (k ∷ keys m) ≡ true) m (λ e h. ground arith) (All-keys m),
  )

  pub All-both {κ μ} :
      (P : ℕ × A → Type κ) (Q : ℕ × A → Type μ) (m : List (ℕ × A))
      → All P m
      → All Q m
      → All (λ e. P e × Q e) m
  All-both P Q [] p q = tt
  All-both P Q (e ∷ m) p q = ((p.0, q.0), All-both P Q m (p.1) (q.1))

module _ (Block : Type 0) (Options : Type 0) (hash : Block → ℕ) (height : Block → ℕ) where
  abbrev pub Entry : Type 0
  Entry = ℕ × Orphan Block Options hash height

  abbrev pub hashes : ℕ → List (ℕ × List ℕ) → List ℕ
  hashes = hashes_at Block Options hash height

  abbrev pub elem_at : ℕ → ℕ → List (ℕ × List ℕ) → Bool
  elem_at k t idx = elem k (hashes t idx)

  -- An orphan is kept under its hash, and the index has it at its height.
  abbrev pub IsAt : List (ℕ × List ℕ) → Entry → Type 0
  IsAt idx e = (e.0 ≡ hash (e.1.block)) × (elem_at (e.0) (height (e.1.block)) idx ≡ true)

  hashes-put_other :
      (t u : ℕ) (hs : List ℕ) (idx : List (ℕ × List ℕ))
      → (u == t) ≡ false
      → hashes t (put u hs idx) ≡ hashes t idx
  unfolding find
  hashes-put_other t u hs idx h = rw (h, find-remove_other t u idx h) refl

  IsAt-push :
      (u h : ℕ) (idx : List (ℕ × List ℕ)) (e : Entry)
      → IsAt idx e
      → IsAt (push_hash Block Options hash height u h idx) e
  unfolding find
  IsAt-push u h idx e (key, at) = elim (Bool-cases (u == height (e.1.block))) [
    | inl same ↦
        let found = (==_iff u (height (e.1.block))).0 same in
        rw same (key, elem-append (e.0) (hashes u idx) (h ∷ []) (rw (← found) at at))
    | inr other ↦
        (key, rw (hashes-put_other (height (e.1.block)) u (hashes u idx ++ h ∷ []) idx other) at)
  ]

  pub put-IsAt :
      (o : Orphan Block Options hash height) (os : List Entry) (idx : List (ℕ × List ℕ))
      → All (IsAt idx) os
      → All
          (IsAt (push_hash Block Options hash height (height (o.block)) (hash (o.block)) idx))
          (put (hash (o.block)) o os)
  unfolding find
  put-IsAt o os idx all =
      let t = height (o.block) in
      let h = hash (o.block) in
      let itself : (t == t) ≡ true = ground arith in
      (
        (refl, rw itself (elem-append_last h (hashes t idx))),
        All-imply (λ e. IsAt idx e × ((e.0 == h) ≡ false))
            (IsAt (push_hash Block Options hash height t h idx)) (remove h os)
            (λ e at. IsAt-push t h idx e (at.0)) (All-remove (IsAt idx) h os all),
      )

  pub All-remove_hashes :
      (P : Entry → Type 0) (hs : List ℕ) (os : List Entry)
      → All P os
      → All (λ e. P e × (elem (e.0) hs ≡ false)) (remove_hashes Block Options hash height hs os)
  unfolding remove_hashes
  All-remove_hashes P [] os all = All-imply P (λ e. P e × (false ≡ false)) os (λ e h. (h, refl)) all
  All-remove_hashes P (h ∷ hs) os all =
      All-imply (λ e. (P e × ((e.0 == h) ≡ false)) × (elem (e.0) hs ≡ false))
        (λ e. P e × (elem (e.0) (h ∷ hs) ≡ false))
        (remove_hashes Block Options hash height hs (remove h os))
        (λ e q. (q.0.0, let a = q.0.1 in let b = q.1 in ground arith))
        (All-remove_hashes (λ e. P e × ((e.0 == h) ≡ false)) hs (remove h os)
          (All-remove P h os all))
