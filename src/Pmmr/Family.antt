-- ===== src/Pmmr/Family.antt =====
-- core/src/core/pmmr/pmmr.rs: family and is_left_sibling. The two children of a node name each other
-- and that node.
use grin.Prelude.{ℕ, ◌+◌, ◌^◌, ◌<◌, ◌≡◌, inl, inr, refl, ap, sym, ◌∙◌, arith, not, max, ltb, lt→ltb}
use grin.Pmmr.Index.{family, is_left_sibling, bintree_postorder_height}
use grin.Pmmr.Siblings.{Siblings, as_sibling}

-- All that the functions say of a node, its sibling and their parent.
abbrev Told : ℕ → ℕ → ℕ → Type 0
Told s t p =
    (family t ≡ (p, s))
    × (p ≡ max s t + 1)
    × (bintree_postorder_height p ≡ bintree_postorder_height s + 1)
    × (bintree_postorder_height t ≡ bintree_postorder_height s)
    × (is_left_sibling s ≡ ltb s t)
    × (is_left_sibling t ≡ not (is_left_sibling s))

Told-left : (l r p h : ℕ) → Siblings l r p h → Told l r p
Told-left l r p h sib = (
  sib.family_right,
  omega (arith, sib.first, sib.last),
  rw (sib.height_parent, sib.height_left) refl,
  rw (sib.height_right, sib.height_left) refl,
  rw sib.left (sym (lt→ltb l r sib.first)),
  rw (sib.left, sib.right) refl,
)

Told-right : (l r p h : ℕ) → Siblings l r p h → Told r l p
Told-right l r p h sib = (
  sib.family_left,
  omega (arith, sib.first, sib.last),
  rw (sib.height_parent, sib.height_right) refl,
  rw (sib.height_right, sib.height_left) refl,
  (let lt = sib.first in rw sib.right (ground arith)),
  rw (sib.left, sib.right) refl,
)

Told-of :
    (s t p s' t' p' : ℕ)
    → s' ≡ s
    → family s ≡ (p, t)
    → family s' ≡ (p', t')
    → Told s t p
    → Told s' t' p'
Told-of s t p s' t' p' es f f' told =
    let both : Path (ℕ × ℕ) (p', t') (p, t) = sym f' ∙ ap family es ∙ f in
    rw (es, ap (λ (x : ℕ × ℕ). x.0) both, ap (λ (x : ℕ × ℕ). x.1) both) told

-- For every position below 2 ^ 60, `family` gives the parent and the sibling: the sibling's family
-- is that parent and the position itself, the parent stands right behind the later of the two and
-- one level above both, and exactly one of the two is a left sibling.
pub family_siblings :
    (pos0 parent sibling : ℕ)
    → pos0 < 2 ^ 60
    → family pos0 ≡ (parent, sibling)
    → (family sibling ≡ (parent, pos0))
      × (parent ≡ max pos0 sibling + 1)
      × (bintree_postorder_height parent ≡ bintree_postorder_height pos0 + 1)
      × (bintree_postorder_height sibling ≡ bintree_postorder_height pos0)
      × (is_left_sibling pos0 ≡ ltb pos0 sibling)
      × (is_left_sibling sibling ≡ not (is_left_sibling pos0))
family_siblings pos0 parent sibling b f =
    let (l, r, p, h, sib, side) = as_sibling pos0 b in
    elim side [
      | inl e ↦ Told-of l r p pos0 sibling parent e sib.family_left f (Told-left l r p h sib)
      | inr e ↦ Told-of r l p pos0 sibling parent e sib.family_right f (Told-right l r p h sib)
    ]
