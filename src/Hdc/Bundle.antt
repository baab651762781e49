-- ===== src/Hdc/Bundle.antt =====
-- Bundling: the result is bipolar and agrees with its inputs as much as a bipolar vector can.
use project_stark.Prelude.{
  ℕ, suc, ◌+◌, ◌≡◌, refl, sym, ap, ◌∙◌, inl, inr, Bool, true, false, some, List, [], ◌∷◌, map,
  arith, ◌==◌, length, Bool-cases,
}
use project_stark.Prelude.Int.{
  ℤ, pos, negsuc, above, below, magnitude, ◌+ℤ◌, ◌*ℤ◌, ◌≤ℤ◌, +ℤ_parts, ltb_ℤ, sums, ℤ-ext,
  +ℤ_exchange, +ℤ_comm, +ℤ_assoc,
}
use project_stark.Hdc.Vectors.{
  Vector, IsBipolar, bipolar, generate, zip_with, vote, is_tie, any_tie, break_ties, majority,
  bundle, sum_axis, same_sizes, dot,
}
use project_stark.Hdc.Bind.{All, length-zip_with}

-- The dot products of `v` with each of `vs`, added up.
pub total : Vector → List Vector → ℤ
total v [] = pos 0
total v (w ∷ ws) = dot v w +ℤ total v ws

-- The sum of the magnitudes.
pub weight : Vector → ℤ
weight [] = pos 0
weight (s ∷ ss) = pos (magnitude s) +ℤ weight ss

one_parts : (a : ℤ) → above (pos 1 *ℤ a) + below a ≡ below (pos 1 *ℤ a) + above a
unfolding ◌*ℤ◌
one_parts a = ground arith

minus_parts : (a : ℤ) → above (negsuc 0 *ℤ a) + above a ≡ below (negsuc 0 *ℤ a) + below a
unfolding ◌*ℤ◌
minus_parts a = ground arith

distribute : (r a b : ℤ) → IsBipolar r → r *ℤ (a +ℤ b) ≡ r *ℤ a +ℤ r *ℤ b
distribute r a b (inl e) = rw e (omega (sums, one_parts (a +ℤ b), one_parts a, one_parts b))
distribute r a b (inr e) = rw e (omega (sums, minus_parts (a +ℤ b), minus_parts a, minus_parts b))

agree : (s : ℤ) → vote s *ℤ s ≡ pos (magnitude s)
unfolding ◌*ℤ◌
agree (pos n) = ground arith
agree (negsuc n) = ground arith

tie : (s t : ℤ) → is_tie s ≡ true → t *ℤ s ≡ pos (magnitude s)
unfolding ◌*ℤ◌
tie (pos n) t h = let e : n ≡ 0 = ground arith in rw e (ground arith)
tie (negsuc n) t h = ground arith

vote-IsBipolar : (s : ℤ) → IsBipolar (vote s)
vote-IsBipolar s = elim (Bool-cases (ltb_ℤ (pos 0) s)) [
  | inl up ↦ inl (rw up refl)
  | inr down ↦ inr (rw down refl)
]

pub bipolar-IsBipolar : (b : Bool) → IsBipolar (bipolar b)
bipolar-IsBipolar true = inl refl
bipolar-IsBipolar false = inr refl

distribute_columns :
    (r v w : Vector)
    → All IsBipolar r
    → length v ≡ length r
    → length w ≡ length r
    → dot r (zip_with ◌+ℤ◌ v w) ≡ dot r v +ℤ dot r w
unfolding dot zip_with
distribute_columns [] v w p h k = ℤ-ext _ _ (omega sums)
distribute_columns (x ∷ xs) [] w p h k = absurd (omega arith)
distribute_columns (x ∷ xs) (y ∷ ys) [] p h k = absurd (omega arith)
distribute_columns (x ∷ xs) (y ∷ ys) (z ∷ zs) p h k =
    rw (distribute x y z p.0, distribute_columns xs ys zs p.1 (omega arith) (omega arith))
      (+ℤ_exchange (x *ℤ y) (x *ℤ z) (dot xs ys) (dot xs zs))

length-sum_axis :
    (v : Vector) (vs : List Vector)
    → same_sizes (length v) vs ≡ true
    → length (sum_axis v vs) ≡ length v
unfolding same_sizes sum_axis
length-sum_axis v [] h = refl
length-sum_axis v (w ∷ ws) h =
    let same : length w ≡ length v = ground arith in
    let ih = length-sum_axis v ws (ground arith) in
    length-zip_with ◌+ℤ◌ w (sum_axis v ws) (omega arith) ∙ same

-- The votes count for each input alike.
dot-sum_axis :
    (r v : Vector) (vs : List Vector)
    → All IsBipolar r
    → length v ≡ length r
    → same_sizes (length v) vs ≡ true
    → dot r (sum_axis v vs) ≡ total r vs +ℤ dot r v
unfolding same_sizes sum_axis total
dot-sum_axis r v [] p h same = ℤ-ext _ _ (omega sums)
dot-sum_axis r v (w ∷ ws) p h same =
    let fits : length w ≡ length v = ground arith in
    let rest : same_sizes (length v) ws ≡ true = ground arith in
    distribute_columns r w (sum_axis v ws) p (omega arith)
      (omega (arith, length-sum_axis v ws rest))
    ∙ rw (dot-sum_axis r v ws p h rest) (sym (+ℤ_assoc (dot r w) (total r ws) (dot r v)))

votes_agree :
    (summed : Vector)
    → (dot (map vote summed) summed ≡ weight summed)
      × (All IsBipolar (map vote summed) × (length (map vote summed) ≡ length summed))
unfolding dot weight
votes_agree [] = (refl, (tt, refl))
votes_agree (s ∷ ss) =
    let (d, (a, n)) = votes_agree ss in (rw (agree s, d) refl, ((vote-IsBipolar s, a), ap suc n))

breaks_agree :
    (summed : Vector) (bits : List Bool)
    → length bits ≡ length summed
    → (dot (break_ties summed (generate bits)) summed ≡ weight summed)
      × (All IsBipolar (break_ties summed (generate bits))
          × (length (break_ties summed (generate bits)) ≡ length summed))
unfolding dot weight break_ties generate
breaks_agree [] bits h = (refl, (tt, refl))
breaks_agree (s ∷ ss) [] h = absurd (omega arith)
breaks_agree (s ∷ ss) (b ∷ bits) h =
    let (d, (a, n)) = breaks_agree ss bits (omega arith) in
    elim (Bool-cases (is_tie s)) [
      | inl tied ↦ (
        rw (tied, tie s (bipolar b) tied, d) refl,
        ((rw tied (bipolar-IsBipolar b), a), ap suc n),
      )
      | inr clear ↦ (rw (clear, agree s, d) refl, ((rw clear (vote-IsBipolar s), a), ap suc n))
    ]

-- What a majority is of summed vectors: as many votes as there can be, at a bipolar vector.
Majority : Vector → Vector → Type 0
Majority summed r = (dot r summed ≡ weight summed) × (All IsBipolar r × (length r ≡ length summed))

majority-Majority :
    (bits : ℕ → List Bool) (dimensions : ℕ) (summed : Vector)
    → length (bits dimensions) ≡ dimensions
    → dimensions ≡ length summed
    → (r : Vector) × ((majority bits dimensions summed ≡ some r) × Majority summed r)
unfolding majority Majority
majority-Majority bits dimensions summed draws fits = elim (Bool-cases (any_tie summed)) [
  | inl ties ↦
      let t : (dimensions == length summed) ≡ true = ground arith in
      (
        break_ties summed (generate (bits dimensions)),
        (rw (ties, t) refl, breaks_agree summed (bits dimensions) (draws ∙ fits)),
      )
  | inr clear ↦ (map vote summed, (rw clear refl, votes_agree summed))
]

at_most : (r a : ℤ) → IsBipolar r → r *ℤ a ≤ℤ pos (magnitude a)
at_most r a (inl e) = rw e (omega (arith, one_parts a))
at_most r a (inr e) = rw e (omega (arith, minus_parts a))

dot-weight : (r summed : Vector) → All IsBipolar r → dot r summed ≤ℤ weight summed
unfolding dot weight
dot-weight [] [] h = omega arith
dot-weight [] (s ∷ ss) h =
    omega (arith, dot-weight [] ss tt, +ℤ_parts (pos (magnitude s)) (weight ss))
dot-weight (x ∷ xs) [] h = omega arith
dot-weight (x ∷ xs) (s ∷ ss) h = omega (
  arith,
  at_most x s h.0,
  dot-weight xs ss h.1,
  +ℤ_parts (x *ℤ s) (dot xs ss),
  +ℤ_parts (pos (magnitude s)) (weight ss),
)

-- Bundling vectors of one size, the size that the caller names, returns a bipolar vector of that
-- size, whatever bits break the ties, and its dot products with the inputs add up to the sum of the
-- magnitudes of the column sums.
pub bundle-agrees :
    (bits : ℕ → List Bool) (v : Vector) (vs : List Vector)
    → length (bits (length v)) ≡ length v
    → same_sizes (length v) vs ≡ true
    → (r : Vector) × ((bundle bits (v ∷ vs) (length v) ≡ some r)
        × (All IsBipolar r × ((length r ≡ length v) × (total r (v ∷ vs) ≡ weight (sum_axis v vs)))))
unfolding bundle Majority total
bundle-agrees bits v vs draws same =
    let n : length (sum_axis v vs) ≡ length v = length-sum_axis v vs same in
    let (r, (e, (d, (a, size)))) =
      majority-Majority bits (length v) (sum_axis v vs) draws (sym n) in
    let sums_up : dot r (sum_axis v vs) ≡ total r vs +ℤ dot r v =
      dot-sum_axis r v vs a (sym n ∙ sym size) same in
    (r, (rw same e, (a, (size ∙ n, +ℤ_comm (dot r v) (total r vs) ∙ sym sums_up ∙ d))))

-- For inputs of one size, the size that the caller names, no bipolar vector of that size has dot
-- products with them that add up to more than those of the vector that bundling them returned.
pub bundle_best :
    (bits : ℕ → List Bool) (v : Vector) (vs : List Vector) (r other : Vector)
    → length (bits (length v)) ≡ length v
    → same_sizes (length v) vs ≡ true
    → bundle bits (v ∷ vs) (length v) ≡ some r
    → All IsBipolar other
    → length other ≡ length v
    → total other (v ∷ vs) ≤ℤ total r (v ∷ vs)
unfolding total
bundle_best bits v vs r other draws same returned signs size =
    let (b, (e, (a, (n, best)))) = bundle-agrees bits v vs draws same in
    let is_b : b ≡ r = ground arith in
    let sums_up : dot other (sum_axis v vs) ≡ total other vs +ℤ dot other v =
      dot-sum_axis other v vs signs (sym size) same in
    let total_best : total r (v ∷ vs) ≡ weight (sum_axis v vs) =
      ap (λ (x : Vector). total x (v ∷ vs)) (sym is_b) ∙ best in
    let bound = dot-weight other (sum_axis v vs) signs in
    rw (total_best, +ℤ_comm (dot other v) (total other vs), ← sums_up) bound
