-- ===== src/Strings/Case.antt =====
-- Folding the case of a text before or after it is cut and trimmed.
use mathlib.Core.Path.{ap₂}
use mathlib.Core.Option
use abstraction_model.Base.{
  All, Bool-cases, Bytes, Option, [], ap, arith, equal, inl, inr, none, refl, some, ℕ, ◌==◌, ◌∙◌,
  ◌∷◌, ◌≡◌,
}
use abstraction_model.Strings.{
  cut, cut_here, cut_prefix, is_space, keep_first, lower_byte, put_first, to_lower, trim, trim_left,
  trim_right, trim_space,
}

lower_byte-lower_byte : (c : ℕ) → lower_byte (lower_byte c) ≡ lower_byte c
unfolding lower_byte
lower_byte-lower_byte c = ground arith

pub to_lower-to_lower : (s : Bytes) → to_lower (to_lower s) ≡ to_lower s
unfolding to_lower
to_lower-to_lower [] = refl
to_lower-to_lower (c ∷ s) = ap₂ (◌∷◌) (lower_byte-lower_byte c) (to_lower-to_lower s)

is_space-lower_byte : (c : ℕ) → is_space (lower_byte c) ≡ is_space c
unfolding is_space lower_byte
is_space-lower_byte c = ground arith

-- A byte that is no letter: folding makes it of itself alone.
abbrev pub IsCaseless : ℕ → Type 0
IsCaseless p = (c : ℕ) → (p == lower_byte c) ≡ (p == c)

pub cut_prefix-to_lower :
    (pre s : Bytes)
    → All IsCaseless pre
    → cut_prefix pre (to_lower s) ≡ Option.map to_lower (cut_prefix pre s)
unfolding cut_prefix to_lower
cut_prefix-to_lower [] s h = refl
cut_prefix-to_lower (p ∷ pre) [] h = refl
cut_prefix-to_lower (p ∷ pre) (c ∷ s) (h, hs) = elim (Bool-cases (p == c)) [
  | inl e ↦ rw (h c, e) (cut_prefix-to_lower pre s hs)
  | inr e ↦ rw (h c, e)
]

abbrev pub lower_both : Bytes × Bytes → Bytes × Bytes
lower_both (a, b) = (to_lower a, to_lower b)

put_first-lower_both :
    (c : ℕ) (o : Option (Bytes × Bytes))
    → put_first (lower_byte c) (Option.map lower_both o) ≡ Option.map lower_both (put_first c o)
unfolding to_lower
put_first-lower_both c none = refl
put_first-lower_both c (some (a, b)) = refl

cut_here-lower_both :
    (o : Option Bytes) (later : Option (Bytes × Bytes))
    → cut_here (Option.map to_lower o) (Option.map lower_both later)
      ≡ Option.map lower_both (cut_here o later)
unfolding to_lower
cut_here-lower_both none later = refl
cut_here-lower_both (some rest) later = refl

pub cut-to_lower :
    (p : ℕ) (sep s : Bytes)
    → All IsCaseless (p ∷ sep)
    → cut (p ∷ sep) (to_lower s) ≡ Option.map lower_both (cut (p ∷ sep) s)
unfolding cut to_lower
cut-to_lower p sep [] h = unfold equal in refl
cut-to_lower p sep (c ∷ s) h =
    ap₂ cut_here (cut_prefix-to_lower (p ∷ sep) (c ∷ s) h) (
      ap (put_first (lower_byte c)) (cut-to_lower p sep s h)
      ∙ put_first-lower_both c (cut (p ∷ sep) s))
    ∙ cut_here-lower_both (cut_prefix (p ∷ sep) (c ∷ s)) (put_first c (cut (p ∷ sep) s))

trim_left-to_lower : (s : Bytes) → trim_left is_space (to_lower s) ≡ to_lower (trim_left is_space s)
unfolding trim_left to_lower
trim_left-to_lower [] = refl
trim_left-to_lower (c ∷ s) = elim (Bool-cases (is_space c)) [
  | inl e ↦ rw (is_space-lower_byte c, e) (trim_left-to_lower s)
  | inr e ↦ rw (is_space-lower_byte c, e)
]

keep_first-to_lower :
    (c : ℕ) (s : Bytes)
    → keep_first is_space (lower_byte c) (to_lower s) ≡ to_lower (keep_first is_space c s)
unfolding to_lower
keep_first-to_lower c [] = elim (Bool-cases (is_space c)) [
  | inl e ↦ rw (is_space-lower_byte c, e)
  | inr e ↦ rw (is_space-lower_byte c, e)
]
keep_first-to_lower c (d ∷ s) = refl

trim_right-to_lower :
    (s : Bytes) → trim_right is_space (to_lower s) ≡ to_lower (trim_right is_space s)
unfolding trim_right to_lower
trim_right-to_lower [] = refl
trim_right-to_lower (c ∷ s) =
    ap (keep_first is_space (lower_byte c)) (trim_right-to_lower s)
    ∙ keep_first-to_lower c (trim_right is_space s)

pub trim_space-to_lower : (s : Bytes) → trim_space (to_lower s) ≡ to_lower (trim_space s)
unfolding trim_space trim
trim_space-to_lower s = rw trim_left-to_lower (trim_right-to_lower (trim_left is_space s))
