-- ===== src/Pipeline/Swarm/Transformation.antt =====
-- The transformation of an expert is bipolar, of the dimensions that were asked for, and the
-- identity outside the domains' masks.
use project_stark.Prelude.{
  ℕ, zero, suc, ◌≡◌, refl, ap, ◌∙◌, Bool, true, false, List, [], ◌∷◌, arith, length, inl, replicate,
  length-replicate,
}
use project_stark.Prelude.Int.{pos}
use project_stark.Hdc.Vectors.{Vector, IsBipolar, generate}
use project_stark.Hdc.Bind.{All, All-replicate}
use project_stark.Hdc.Bundle.{bipolar-IsBipolar}
use project_stark.Pipeline.Swarm.{
  union, add_domains, create_fuzzy_mask, mask_sum, put_mask, get_fuzzy_transformation,
}

length-union : (ms ns : List Bool) → length ms ≡ length ns → length (union ms ns) ≡ length ms
unfolding union
length-union [] ns h = refl
length-union (m ∷ ms) [] h = absurd (omega arith)
length-union (m ∷ ms) (n ∷ ns) h = ap suc (length-union ms ns (omega arith))

generate-IsBipolar : (bits : List Bool) → All IsBipolar (generate bits)
unfolding generate
generate-IsBipolar [] = tt
generate-IsBipolar (b ∷ bits) = (bipolar-IsBipolar b, generate-IsBipolar bits)

put_mask-fits :
    (mask : List Bool) (flips base : Vector)
    → All IsBipolar flips
    → All IsBipolar base
    → (length (put_mask mask flips base) ≡ length base) × All IsBipolar (put_mask mask flips base)
unfolding put_mask
put_mask-fits [] fs base h k = (refl, k)
put_mask-fits (m ∷ mask) fs [] h k = (refl, k)
put_mask-fits (true ∷ mask) [] (x ∷ base) h k =
    let (n, a) = put_mask-fits mask [] base h k.1 in (ap suc n, (k.0, a))
put_mask-fits (true ∷ mask) (f ∷ fs) (x ∷ base) h k =
    let (n, a) = put_mask-fits mask fs base h.1 k.1 in (ap suc n, (h.0, a))
put_mask-fits (false ∷ mask) fs (x ∷ base) h k =
    let (n, a) = put_mask-fits mask fs base h k.1 in (ap suc n, (k.0, a))

-- Where the mask is false the vector is one.
pub OneOutside : List Bool → Vector → Type 0
OneOutside mask [] = Unit
OneOutside [] (x ∷ xs) = (x ≡ pos 1) × OneOutside [] xs
OneOutside (true ∷ mask) (x ∷ xs) = OneOutside mask xs
OneOutside (false ∷ mask) (x ∷ xs) = (x ≡ pos 1) × OneOutside mask xs

ones_outside : (n : ℕ) → OneOutside [] (replicate n (pos 1))
unfolding OneOutside
ones_outside zero = tt
ones_outside (suc n) = (refl, ones_outside n)

put_mask-OneOutside :
    (mask : List Bool) (flips : Vector) (n : ℕ)
    → OneOutside mask (put_mask mask flips (replicate n (pos 1)))
unfolding put_mask OneOutside
put_mask-OneOutside [] fs n = ones_outside n
put_mask-OneOutside (m ∷ mask) fs zero = tt
put_mask-OneOutside (true ∷ mask) [] (suc n) = put_mask-OneOutside mask [] n
put_mask-OneOutside (true ∷ mask) (f ∷ fs) (suc n) = put_mask-OneOutside mask fs n
put_mask-OneOutside (false ∷ mask) fs (suc n) = (refl, put_mask-OneOutside mask fs n)

module _ {D : Type 0} (get_domain_mask : D → ℕ → List Bool) where
  length-add_domains :
      (domains : List D) (n : ℕ) (mask : List Bool)
      → ((d : D) → length (get_domain_mask d n) ≡ n)
      → length mask ≡ n
      → length (add_domains get_domain_mask domains n mask) ≡ n
  unfolding add_domains
  length-add_domains [] n mask sized h = h
  length-add_domains (d ∷ domains) n mask sized h =
      length-add_domains domains n (union mask (get_domain_mask d n)) sized
        (length-union mask (get_domain_mask d n) (omega (arith, sized d)) ∙ h)

  -- When the mask of each domain has the dimensions that were asked for, so have the mask of all of
  -- them and the transformation, which is bipolar, and one at every place where that mask is false.
  pub get_fuzzy_transformation_lem :
      (draw : ℕ → List Bool) (dimensions : ℕ) (domains : List D)
      → ((d : D) → length (get_domain_mask d dimensions) ≡ dimensions)
      → let t = get_fuzzy_transformation get_domain_mask draw dimensions domains in
        let mask = create_fuzzy_mask get_domain_mask domains dimensions in
        (length mask ≡ dimensions) × (length t ≡ dimensions) × All IsBipolar t × OneOutside mask t
  unfolding get_fuzzy_transformation create_fuzzy_mask
  get_fuzzy_transformation_lem draw n domains sized =
      let mask : List Bool = create_fuzzy_mask get_domain_mask domains n in
      let flips : Vector = generate (draw (mask_sum mask)) in
      let (size, signs) =
        put_mask-fits mask flips (replicate n (pos 1)) (generate-IsBipolar _)
          (All-replicate IsBipolar n (pos 1) (inl refl)) in
      (
        length-add_domains domains n (replicate n false) sized (length-replicate n false),
        size ∙ length-replicate n (pos 1),
        signs,
        put_mask-OneOutside mask flips n,
      )
