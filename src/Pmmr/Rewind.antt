-- ===== src/Pmmr/Rewind.antt =====
-- core/src/core/pmmr/pmmr.rs: PMMR::rewind undoes PMMR::push.
use grin.Prelude.{
  ℕ, zero, suc, ◌^◌, ◌≤◌, ◌<◌, ◌≡◌, refl, ap, sym, ◌∙◌, arith, List, [], ◌∷◌, ◌++◌, length, some,
  Result, ok, take, length-append, take-append,
}
use mathlib.Core.List.{append_assoc, append-nil}
use grin.Prelude.Try.{◌>>=◌}
use native.Mathlib.Decide.{dec_le}
use native.Mathlib.Numerals.{add-one}
use grin.Pmmr.Ones.{leaf_pos, leaf_pos-suc, le-leaf_pos, insertion-eq-leaf_pos}
use grin.Pmmr.Peaks.{peak_map_height_lem}
use grin.Pmmr.Index.{peak_map_height, n_leaves, round_up_to_leaf_pos, insertion_to_pmmr_index}
use grin.Pmmr.VecBackend.{VecBackend, new_vec, append, rewind_backend, map_elements}
use grin.Pmmr.Range.{Pmmr, at, PmmrError, rewind}
use grin.Pmmr.Push.{push-IsBuilt}
use grin.Pmmr.Root.{push_first, Built, empty-IsBuilt}

take-append_left {ℓ} :
    {A : Type ℓ} (n : ℕ) (xs ys : List A) → n ≤ length xs → take n (xs ++ ys) ≡ take n xs
take-append_left zero xs ys h = refl
take-append_left (suc n) [] ys h = absurd (omega arith)
take-append_left (suc n) (x ∷ xs) ys h = ap (λ t. x ∷ t) (take-append_left n xs ys (omega arith))

pub at_leaf : (n : ℕ) → n < 2 ^ 62 → peak_map_height (leaf_pos n) ≡ (n, 0)
at_leaf n h =
    let low = le-leaf_pos n in
    peak_map_height_lem n (leaf_pos n) (omega arith) (omega arith) (leaf_pos-suc n)
    ∙ ap (λ (t : ℕ). (n, t)) (omega arith)

n_leaves-leaf_pos : (n : ℕ) → n < 2 ^ 62 → n_leaves (leaf_pos n) ≡ n
unfolding n_leaves
n_leaves-leaf_pos n h = rw (at_leaf n h) refl

round_up-leaf_pos : (n : ℕ) → n < 2 ^ 62 → round_up_to_leaf_pos (leaf_pos n) ≡ leaf_pos n
unfolding round_up_to_leaf_pos
round_up-leaf_pos n h = rw (at_leaf n h) (insertion-eq-leaf_pos n (omega arith))

module _ {T : Type 0} (hash_with_index : T → ℕ → ℕ) (hash_children : ℕ → ℕ → ℕ → ℕ)
    (leaf : ℕ → T) where
  unfoldable pub firsts : ℕ → List T
  firsts zero = []
  firsts (suc n) = firsts n ++ leaf n ∷ []

  length-firsts : (n : ℕ) → length (firsts n) ≡ n
  unfolding firsts
  length-firsts zero = refl
  length-firsts (suc n) = omega (arith, length-append (firsts n) (leaf n ∷ []), length-firsts n)

  take-firsts : (m n : ℕ) → m ≤ n → take m (firsts n) ≡ firsts m
  unfolding firsts
  take-firsts m zero h = let e : m ≡ 0 = omega arith in rw e refl
  take-firsts m (suc n) h = elim (dec_le m n) [
    | yes old ↦
        take-append_left m (firsts n) (leaf n ∷ []) (let c = length-firsts n in omega arith)
        ∙ take-firsts m n old
    | no all ↦
        let e : m ≡ suc n = omega arith in
        let count = length-firsts (suc n) in
        rw e (
          ap (take (suc n)) (sym (append-nil (firsts (suc n))))
          ∙ take-append (suc n) (firsts (suc n)) [] count)
  ]

  abbrev pushed : ℕ → Result PmmrError (Pmmr T)
  pushed n = push_first hash_with_index hash_children leaf n (at new_vec 0)

  -- What the range after the first `n` elements has kept of the one after `m`.
  pub record IsLonger (m n : ℕ) (p q : Pmmr T) : Type 0 where
    pub first : pushed m ≡ ok p
    second : pushed n ≡ ok q
    pub base : Built hash_with_index hash_children leaf m p
    more : Built hash_with_index hash_children leaf n q
    elements : q.backend.elements ≡ some (firsts n)
    elements' : p.backend.elements ≡ some (firsts m)
    removed : q.backend.removed ≡ []
    pub removed' : p.backend.removed ≡ []
    rest : List ℕ
    longer : q.backend.hashes ≡ p.backend.hashes ++ rest

  -- One more element.
  IsLonger-push :
      (m n : ℕ) (p q : Pmmr T)
      → n < 2 ^ 62
      → IsLonger m n p q
      → (q' : Pmmr T) × IsLonger m (suc n) p q'
  unfolding firsts push_first append
  IsLonger-push m n p q h l =
      let (q', ok_push, built, (hs, added)) =
        push-IsBuilt hash_with_index hash_children leaf n q h (l.more) in
      (
        q',
        record {
          first = l.first;
          second = rw (l.second, ok_push) refl;
          base = l.base;
          more = rw (add-one n) at built;
          elements =
              ap (λ (b : VecBackend T). b.elements) added
              ∙ ap (map_elements (λ ts. ts ++ leaf n ∷ [])) (l.elements);
          elements' = l.elements';
          removed = ap (λ (b : VecBackend T). b.removed) added ∙ l.removed;
          removed' = l.removed';
          rest = l.rest ++ hs;
          longer =
              ap (λ (b : VecBackend T). b.hashes) added
              ∙ ap (λ (t : List ℕ). t ++ hs) (l.longer)
              ∙ append_assoc (p.backend.hashes) (l.rest) hs;
        },
      )

  IsLonger-start : (m : ℕ) → m < 2 ^ 62 → (p : Pmmr T) × IsLonger m m p p
  unfolding push_first firsts
  IsLonger-start zero h = (
    at new_vec 0,
    record {
      first = refl;
      second = refl;
      base = empty-IsBuilt hash_with_index hash_children leaf;
      more = empty-IsBuilt hash_with_index hash_children leaf;
      elements = refl;
      elements' = refl;
      removed = refl;
      removed' = refl;
      rest = [];
      longer = refl;
    },
  )
  IsLonger-start (suc m) h =
      let (p, l) = IsLonger-start m (omega arith) in
      let (q, l') = IsLonger-push m m p p (omega arith) l in
      (
        q,
        record {
          first = l'.second;
          second = l'.second;
          base = l'.more;
          more = l'.more;
          elements = l'.elements;
          elements' = l'.elements;
          removed = l'.removed;
          removed' = l'.removed;
          rest = [];
          longer = sym (append-nil (q.backend.hashes));
        },
      )

  pub IsLonger-of : (m n : ℕ) → m ≤ n → n < 2 ^ 62 → (p : Pmmr T) × (q : Pmmr T) × IsLonger m n p q
  IsLonger-of m zero le h =
      let (p, l) = IsLonger-start 0 h in let e : m ≡ 0 = omega arith in rw e (p, p, l)
  IsLonger-of m (suc n) le h = elim (dec_le m n) [
    | yes old ↦
        let (p, q, l) = IsLonger-of m n old (omega arith) in
        let (q', l') = IsLonger-push m n p q (omega arith) l in (p, q', l')
    | no top ↦
        let (p, l) = IsLonger-start (suc n) h in let e : m ≡ suc n = omega arith in rw e (p, p, l)
  ]

  rewound :
      (m n : ℕ) (p q : Pmmr T) → m ≤ n → m < 2 ^ 62 → IsLonger m n p q → rewind (leaf_pos m) q ≡ p
  unfolding rewind rewind_backend
  rewound m n p q le h l =
      rw
        (
          round_up-leaf_pos m h,
          n_leaves-leaf_pos m h,
          l.elements,
          l.longer,
          take-firsts m n le,
          l.removed,
          take-append (leaf_pos m) (p.backend.hashes) (l.rest) (l.base.count),
        )
        (λ i. record {
          size = (sym (l.base.sized)) i;
          backend = record {
            elements = (sym (l.elements')) i;
            hashes = p.backend.hashes;
            removed = (sym (l.removed')) i;
          };
        })

  -- After up to 2 ^ 62 - 1 pushes into an empty range, rewinding to the position of the leaf with index
  -- `m`, at most the next one, gives exactly the range after the first `m` pushes: its size, its hashes
  -- and its elements.
  pub rewind-push_first :
      (m n : ℕ)
      → m ≤ n
      → n < 2 ^ 62
      → (pushed n >>= λ q. ok (rewind (insertion_to_pmmr_index m) q)) ≡ pushed m
  rewind-push_first m n le h =
      let (p, q, l) = IsLonger-of m n le h in
      rw (l.second, l.first, insertion-eq-leaf_pos m (omega arith))
        (ap (λ (t : Pmmr T). ok t) (rewound m n p q le (omega arith) l))
