-- ===== src/Plugins/Manager/Versions.antt =====
-- The comparison of versions and the removal of duplicates in `discover`,
-- core_engine/plugins/manager.py.
use project_stark.Prelude.{
  ◌≡◌, refl, sym, ◌∙◌, true, false, List, [], ◌∷◌, ◌++◌, ◌⊎◌, inl, inr, arith, Bool-cases, length,
}
use mathlib.Core.Path.{subst}
use project_stark.Prelude.Int.{ℤ, pos, ltb_ℤ, ◌<ℤ◌, ℤ-ext}
use project_stark.Plugins.Manager.{compare_parts}

-- A version that continues another compares equal to it, in both orders, so neither replaces the
-- other.
pub compare_parts-continued :
    (p q : List ℤ) → (compare_parts p (p ++ q) ≡ pos 0) × (compare_parts (p ++ q) p ≡ pos 0)
unfolding compare_parts
compare_parts-continued [] [] = (refl, refl)
compare_parts-continued [] (b ∷ q) = (refl, refl)
compare_parts-continued (a ∷ p) q =
    let (f, g) = compare_parts-continued p q in (ground (arith), ground (arith))

-- The first version is not above the second: part by part, a smaller number decides and an equal one
-- goes on to the next, up to the end of one of them.
abbrev pub AtMost : List ℤ → List ℤ → Type 0
AtMost [] q = Unit
AtMost (a ∷ p) [] = Unit
AtMost (a ∷ p) (b ∷ q) = (a <ℤ b) ⊎ ((a ≡ b) × AtMost p q)

pub AtMost-refl : (p : List ℤ) → AtMost p p
AtMost-refl [] = tt
AtMost-refl (a ∷ p) = inr (refl, AtMost-refl p)

-- Between versions of one length "not above" is a total order.
pub AtMost-trans :
    (p q r : List ℤ)
    → length p ≡ length q
    → length q ≡ length r
    → AtMost p q
    → AtMost q r
    → AtMost p r
AtMost-trans [] q r e f g h = tt
AtMost-trans (a ∷ p) [] r e f g h = absurd (ground arith)
AtMost-trans (a ∷ p) (b ∷ q) [] e f g h = tt
AtMost-trans (a ∷ p) (b ∷ q) (c ∷ r) e f g h = elim g [
  | inl ab ↦ elim h [
    | inl bc ↦ inl (omega arith)
    | inr (same, later) ↦ inl (subst (λ x. a <ℤ x) same ab)
  ]
  | inr (same, now) ↦ elim h [
    | inl bc ↦ inl (subst (λ x. x <ℤ c) (sym same) bc)
    | inr (also, later) ↦
        inr (same ∙ also, AtMost-trans p q r (omega (arith, e)) (omega (arith, f)) now later)
  ]
]

-- The comparison is 1 only for a version that is not below the other, and else for one that is not
-- above it.
pub compare_parts-AtMost :
    (p q : List ℤ)
    → (ltb_ℤ (pos 0) (compare_parts p q) ≡ true → AtMost q p)
      × (ltb_ℤ (pos 0) (compare_parts p q) ≡ false → AtMost p q)
unfolding compare_parts
compare_parts-AtMost [] q = (λ h. absurd (ground arith), λ h. tt)
compare_parts-AtMost (a ∷ p) [] = (λ h. absurd (ground arith), λ h. tt)
compare_parts-AtMost (a ∷ p) (b ∷ q) = elim (Bool-cases (ltb_ℤ b a)) [
  | inl more ↦ rw (more, compare_parts) (λ h. inl (ground arith), λ h. absurd (ground arith))
  | inr not_more ↦ elim (Bool-cases (ltb_ℤ a b)) [
    | inl less ↦
        rw (not_more, less, compare_parts) (λ h. absurd (ground arith), λ h. inl (ground arith))
    | inr not_less ↦
        let same : a ≡ b = ℤ-ext a b (ground arith) in
        let (up, down) = compare_parts-AtMost p q in
        rw (not_more, not_less, compare_parts) (λ h. inr (sym same, up h), λ h. inr (same, down h))
  ]
]
