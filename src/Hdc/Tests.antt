-- ===== src/Hdc/Tests.antt =====
-- Small hypervectors.
use project_stark.Prelude.{
  ℕ, ◌≡◌, refl, Bool, true, some, List, [], ◌∷◌, length, inl, inr, replicate, arith,
}
use project_stark.Prelude.Int.{ℤ, pos, negsuc, ◌≤ℤ◌, ◌+ℤ◌}
use project_stark.Hdc.Vectors.{
  Vector, IsBipolar, bind, permute, bundle, sum_axis, same_sizes, generate, majority, break_ties,
  any_tie, zip_with, roll_by, shift_in,
}
use project_stark.Hdc.Bind.{All, bind_twice}
use project_stark.Hdc.Bundle.{total, weight, bundle-agrees, bundle_best}

abbrev up : ℤ
up = pos 1

abbrev down : ℤ
down = negsuc 0

abbrev first : Vector
first = up ∷ down ∷ down ∷ []

abbrev second : Vector
second = down ∷ down ∷ up ∷ []

abbrev third : Vector
third = up ∷ up ∷ down ∷ []

first-IsBipolar : All IsBipolar first
first-IsBipolar = (inl refl, (inr refl, (inr refl, tt)))

second-IsBipolar : All IsBipolar second
second-IsBipolar = (inr refl, (inr refl, (inl refl, tt)))

third-IsBipolar : All IsBipolar third
third-IsBipolar = (inl refl, (inl refl, (inr refl, tt)))

rotates : permute (negsuc 1) (pos 1 ∷ pos 2 ∷ pos 3 ∷ []) ≡ pos 3 ∷ pos 1 ∷ pos 2 ∷ []
unfolding permute roll_by shift_in
rotates = refl

bind_twice_example :
    (bound : Vector) × (bind (pos 100 ∷ negsuc 127 ∷ pos 3 ∷ []) second ≡ some bound)
    × (bind bound second ≡ some (pos 100 ∷ negsuc 127 ∷ pos 3 ∷ []))
bind_twice_example =
    bind_twice (pos 100 ∷ negsuc 127 ∷ pos 3 ∷ []) second refl
      ((omega arith, omega arith), ((omega arith, omega arith), ((omega arith, omega arith), tt)))
      second-IsBipolar

abbrev draws : ℕ → List Bool
draws n = replicate n true

bundle-agrees_example :
    (r : Vector) × ((bundle draws (first ∷ second ∷ []) 3 ≡ some r)
      × (All IsBipolar r
          × ((length r ≡ 3)
              × (total r (first ∷ second ∷ []) ≡ weight (sum_axis first (second ∷ []))))))
unfolding same_sizes
bundle-agrees_example = bundle-agrees draws first (second ∷ []) refl refl

bundle_best_example :
    total third (first ∷ second ∷ []) ≤ℤ total (up ∷ down ∷ up ∷ []) (first ∷ second ∷ [])
unfolding same_sizes bundle majority sum_axis zip_with any_tie break_ties generate ◌+ℤ◌
bundle_best_example =
    bundle_best draws first (second ∷ []) (up ∷ down ∷ up ∷ []) third refl refl refl third-IsBipolar
      refl
