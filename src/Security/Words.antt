-- ===== src/Security/Words.antt =====
-- Texts as lists of code points, cut as Python's `split` cuts them.
use Prim.Native.Char.{code}
use project_stark.Prelude.Text.{String}
use project_stark.Prelude.{
  ℕ, zero, suc, ◌+◌, ◌≡◌, ◌≢◌, refl, sym, ap, ◌∙◌, Bool, true, false, ◌&&◌, ◌||◌, Option, none,
  some, List, [], ◌∷◌, ◌++◌, take, ◌-◌, leb, ◌==◌, if◌then◌else◌, arith, Bool-cases, inl, inr,
}

-- The code points of a text.
abbrev pub codes : String → List ℕ
codes String.[] = []
codes (String.◌∷◌ c s) = code c ∷ codes s

-- `t.upper()` and `t.lower()` of ASCII letters
unfoldable pub upper : List ℕ → List ℕ
upper [] = []
upper (x ∷ xs) = (if leb b'a' x && leb x b'z' then x - 32 else x) ∷ upper xs

unfoldable pub lower : List ℕ → List ℕ
lower [] = []
lower (x ∷ xs) = (if leb b'A' x && leb x b'Z' then x + 32 else x) ∷ lower xs

unfoldable pub has_letter : ℕ → List ℕ → Bool
has_letter c [] = false
has_letter c (x ∷ xs) = (x == c) || has_letter c xs

-- `==` on texts
unfoldable pub same_words : List ℕ → List ℕ → Bool
same_words [] [] = true
same_words [] (y ∷ ys) = false
same_words (x ∷ xs) [] = false
same_words (x ∷ xs) (y ∷ ys) = (x == y) && same_words xs ys

pub same_words_eq : (a b : List ℕ) → same_words a b ≡ true → a ≡ b
unfolding same_words
same_words_eq [] [] h = refl
same_words_eq [] (y ∷ ys) h = absurd (ground arith)
same_words_eq (x ∷ xs) [] h = absurd (ground arith)
same_words_eq (x ∷ xs) (y ∷ ys) h = ground (arith, same_words_eq xs ys)

pub same_words_refl : (a : List ℕ) → same_words a a ≡ true
unfolding same_words
same_words_refl [] = refl
same_words_refl (x ∷ xs) = ground (arith, same_words_refl xs)

-- `t.startswith(p)`
unfoldable pub starts_with : List ℕ → List ℕ → Bool
starts_with [] t = true
starts_with (p ∷ ps) [] = false
starts_with (p ∷ ps) (x ∷ xs) = (p == x) && starts_with ps xs

-- `p in t`
unfoldable pub occurs : List ℕ → List ℕ → Bool
occurs p [] = starts_with p []
occurs p (x ∷ xs) = starts_with p (x ∷ xs) || occurs p xs

-- `any(p in t for p in ps)`
unfoldable pub any_occurs : List (List ℕ) → List ℕ → Bool
any_occurs [] t = false
any_occurs (p ∷ ps) t = occurs p t || any_occurs ps t

words_dec_of : (a b : List ℕ) (t : Bool) → same_words a b ≡ t → Dec (a ≡ b)
words_dec_of a b true e = yes (same_words_eq a b e)
words_dec_of a b false e = no λ p.
    let same : same_words a b ≡ true = ap (same_words a) (sym p) ∙ same_words_refl a in ground arith

unfoldable pub words_dec : Discrete (List ℕ)
unfolding words_dec_of
words_dec a b = words_dec_of a b (same_words a b) refl

-- `t.split(c, 1)`, where there is a `c`
unfoldable pub split_once : ℕ → List ℕ → Option (List ℕ × List ℕ)
split_once c [] = none
split_once c (x ∷ xs) =
    let rest = split_once c xs in
    if x == c then some ([], xs) else elim rest [ none ↦ none | some (a, b) ↦ some (x ∷ a, b) ]

abbrev pub to_front : ℕ → List (List ℕ) → List (List ℕ)
to_front x [] = (x ∷ []) ∷ []
to_front x (w ∷ ws) = (x ∷ w) ∷ ws

-- `t.split(c)`
unfoldable pub split : ℕ → List ℕ → List (List ℕ)
split c [] = [] ∷ []
split c (x ∷ xs) = let rest = split c xs in if x == c then [] ∷ rest else to_front x rest

pub split_once-append :
    (c : ℕ) (a b : List ℕ) → has_letter c a ≡ false → split_once c (a ++ c ∷ b) ≡ some (a, b)
unfolding split_once has_letter
split_once-append c [] b h = ground arith
split_once-append c (x ∷ a) b h = ground (arith, split_once-append c a b)

pub has_letter-append :
    (c : ℕ) (a b : List ℕ) → has_letter c (a ++ b) ≡ (has_letter c a || has_letter c b)
unfolding has_letter
has_letter-append c [] b = refl
has_letter-append c (x ∷ a) b = ground (arith, has_letter-append c a b)

split-ne-nil : (c : ℕ) (t : List ℕ) → split c t ≢ []
unfolding split
split-ne-nil c [] = λ e. ground arith
split-ne-nil c (x ∷ xs) = elim (Bool-cases (x == c)) [
  | inl e ↦ rw (e, split) (λ q. ground arith)
  | inr e ↦ rw (e, split) (front (split c xs))
]
  where
    front : (r : List (List ℕ)) → to_front x r ≢ []
    front [] = λ q. ground arith
    front (w ∷ ws) = λ q. ground arith

split-one : (c : ℕ) (t b : List ℕ) → split c t ≡ b ∷ [] → t ≡ b
unfolding split
split-one c [] b h = ground arith
split-one c (x ∷ xs) b h = elim (Bool-cases (x == c)) [
  | inl e ↦ absurd (none_left (split c xs) refl (ground arith))
  | inr e ↦ by_rest (λ w. split-one c xs w) (split c xs) refl (ground arith)
]
  where
    none_left : (r : List (List ℕ)) → split c xs ≡ r → r ≡ [] → ⊥
    none_left r e f = split-ne-nil c xs (e ∙ f)

    by_rest :
        ((w : List ℕ) → split c xs ≡ w ∷ [] → xs ≡ w)
        → (r : List (List ℕ)) → split c xs ≡ r
        → to_front x r ≡ b ∷ []
        → x ∷ xs ≡ b
    by_rest ih [] e f = absurd (split-ne-nil c xs e)
    by_rest ih (w ∷ ws) e f =
        let whole : split c xs ≡ w ∷ [] = ground arith in
        let same : xs ≡ w = ih w whole in ground arith

-- The parts of a text, joined again.
pub split-two : (c : ℕ) (t a b : List ℕ) → split c t ≡ a ∷ b ∷ [] → t ≡ a ++ c ∷ b
unfolding split
split-two c [] a b h = absurd (ground arith)
split-two c (x ∷ xs) a b h = elim (Bool-cases (x == c)) [
  | inl e ↦
      let here : x ≡ c = ground arith in
      let rest : xs ≡ b = split-one c xs b (ground arith) in ground arith
  | inr e ↦ by_rest (λ w. split-two c xs w b) (split c xs) refl (ground arith)
]
  where
    by_rest :
        ((w : List ℕ) → split c xs ≡ w ∷ b ∷ [] → xs ≡ w ++ c ∷ b)
        → (r : List (List ℕ)) → split c xs ≡ r
        → to_front x r ≡ a ∷ b ∷ []
        → x ∷ xs ≡ a ++ c ∷ b
    by_rest ih [] e f = absurd (split-ne-nil c xs e)
    by_rest ih (w ∷ ws) e f =
        let more : split c xs ≡ w ∷ b ∷ [] = ground arith in
        let same : xs ≡ w ++ c ∷ b = ih w more in ground arith

pub split-append :
    (c : ℕ) (a b : List ℕ) → has_letter c a ≡ false → split c (a ++ c ∷ b) ≡ a ∷ split c b
unfolding split has_letter
split-append c [] b h = ground arith
split-append c (x ∷ a) b h = ground (arith, split-append c a b)

pub split_whole : (c : ℕ) (b : List ℕ) → has_letter c b ≡ false → split c b ≡ b ∷ []
unfolding split has_letter
split_whole c [] h = refl
split_whole c (x ∷ b) h = ground (arith, split_whole c b)

pub has_letter-take :
    (c n : ℕ) (a : List ℕ) → has_letter c a ≡ false → has_letter c (take n a) ≡ false
unfolding has_letter
has_letter-take c zero a h = refl
has_letter-take c (suc n) [] h = refl
has_letter-take c (suc n) (x ∷ a) h = ground (arith, has_letter-take c n a)
