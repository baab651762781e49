-- ===== src/Pipeline/Swarm.antt =====
-- core_engine/swarm/specialization.py: the transformation of an expert for a list of domains. The
-- mask that NumPy draws for a domain name and the coin flips that it draws are parameters.
pub mod Transformation
use project_stark.Prelude.{
  ℕ, ◌≡◌, refl, ap, Bool, true, false, ◌||◌, List, [], ◌∷◌, length, replicate, arith, inl, inr, suc,
  if◌then◌else◌,
}
use project_stark.Prelude.Int.{ℤ, pos, negsuc}
use project_stark.Hdc.Vectors.{Vector, IsBipolar, generate, bipolar}
use project_stark.Hdc.Bind.{All}

-- `final_mask |= domain_mask`
unfoldable pub union : List Bool → List Bool → List Bool
union [] ns = []
union (m ∷ ms) [] = []
union (m ∷ ms) (n ∷ ns) = (m || n) ∷ union ms ns

module _ {D : Type 0} (get_domain_mask : D → ℕ → List Bool) where
  -- the loop of `create_fuzzy_mask`
  unfoldable pub add_domains : List D → ℕ → List Bool → List Bool
  add_domains [] dimensions final_mask = final_mask
  add_domains (d ∷ domains) dimensions final_mask =
      add_domains domains dimensions (union final_mask (get_domain_mask d dimensions))

  unfoldable pub create_fuzzy_mask : List D → ℕ → List Bool
  create_fuzzy_mask domains dimensions = add_domains domains dimensions (replicate dimensions false)

-- `int(mask.sum())`
unfoldable pub mask_sum : List Bool → ℕ
mask_sum [] = 0
mask_sum (m ∷ ms) = let rest = mask_sum ms in if m then suc rest else rest

-- `transformation[mask] = flips`
unfoldable pub put_mask : List Bool → Vector → Vector → Vector
put_mask [] flips base = base
put_mask (m ∷ mask) flips [] = []
put_mask (true ∷ mask) [] (x ∷ base) = x ∷ put_mask mask [] base
put_mask (true ∷ mask) (f ∷ flips) (x ∷ base) = f ∷ put_mask mask flips base
put_mask (false ∷ mask) flips (x ∷ base) = x ∷ put_mask mask flips base

module _ {D : Type 0} (get_domain_mask : D → ℕ → List Bool) (draw : ℕ → List Bool) where
  unfoldable pub get_fuzzy_transformation : ℕ → List D → Vector
  get_fuzzy_transformation dimensions domains =
      let mask : List Bool = create_fuzzy_mask get_domain_mask domains dimensions in
      put_mask mask (generate (draw (mask_sum mask))) (replicate dimensions (pos 1))
