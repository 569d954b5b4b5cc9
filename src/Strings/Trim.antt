-- ===== src/Strings/Trim.antt =====
-- Cutting, trimming and folding a text at a byte that stays.
use abstraction_model.Base.{
  All, Bool, Bool-cases, Bytes, Option, [], ap, false, inl, inr, none, refl, some, sym, ℕ, ◌++◌,
  ◌==◌, ◌∙◌, ◌∷◌, ◌≡◌,
}
use abstraction_model.Strings.{cut, cut_prefix, keep_first, put_first, trim_left, trim_right}
use abstraction_model.Strings.Fields.{Lacks}

abbrev pub put_all : Bytes → Option (Bytes × Bytes) → Option (Bytes × Bytes)
put_all p none = none
put_all p (some (a, b)) = some (p ++ a, b)

put_all-cons :
    (c : ℕ) (p : Bytes) (o : Option (Bytes × Bytes)) → put_first c (put_all p o) ≡ put_all (c ∷ p) o
put_all-cons c p none = refl
put_all-cons c p (some (a, b)) = refl

put_all-nil : (o : Option (Bytes × Bytes)) → put_all [] o ≡ o
put_all-nil none = refl
put_all-nil (some (a, b)) = refl

-- What stands before the first byte of `sep` holds no match.
pub cut-append :
    (x : ℕ) (sep p t : Bytes)
    → Lacks (λ c. x == c) p
    → cut (x ∷ sep) (p ++ t) ≡ put_all p (cut (x ∷ sep) t)
unfolding cut cut_prefix
cut-append x sep [] t h = sym (put_all-nil (cut (x ∷ sep) t))
cut-append x sep (c ∷ p) t (h, hs) =
    rw h (ap (put_first c) (cut-append x sep p t hs) ∙ put_all-cons c p (cut (x ∷ sep) t))

pub trim_left-append :
    (test : ℕ → Bool) (p : Bytes) (c : ℕ) (s : Bytes)
    → test c ≡ false
    → trim_left test (p ++ c ∷ s) ≡ trim_left test p ++ c ∷ s
unfolding trim_left
trim_left-append test [] c s h = rw h
trim_left-append test (d ∷ p) c s h = elim (Bool-cases (test d)) [
  | inl e ↦ rw e (trim_left-append test p c s h)
  | inr e ↦ rw e
]

keep_first-append :
    (test : ℕ → Bool) (d : ℕ) (p : Bytes) (c : ℕ) (s : Bytes)
    → keep_first test d (p ++ c ∷ s) ≡ d ∷ (p ++ c ∷ s)
keep_first-append test d [] c s = refl
keep_first-append test d (e ∷ p) c s = refl

pub keep_first_stays :
    (test : ℕ → Bool) (c : ℕ) (s : Bytes) → test c ≡ false → keep_first test c s ≡ c ∷ s
keep_first_stays test c [] h = rw h
keep_first_stays test c (d ∷ s) h = refl

pub trim_right-append :
    (test : ℕ → Bool) (p : Bytes) (c : ℕ) (s : Bytes)
    → test c ≡ false
    → trim_right test (p ++ c ∷ s) ≡ p ++ c ∷ trim_right test s
unfolding trim_right
trim_right-append test [] c s h = keep_first_stays test c (trim_right test s) h
trim_right-append test (d ∷ p) c s h =
    ap (keep_first test d) (trim_right-append test p c s h)
    ∙ keep_first-append test d p c (trim_right test s)

pub cut_prefix-append :
    (pre p : Bytes) (c : ℕ) (s : Bytes)
    → Lacks (λ d. d == c) pre
    → cut_prefix pre p ≡ none
    → cut_prefix pre (p ++ c ∷ s) ≡ none
unfolding cut_prefix
cut_prefix-append [] p c s h e = cc
cut_prefix-append (d ∷ pre) [] c s (h, hs) e = rw h
cut_prefix-append (d ∷ pre) (x ∷ p) c s (h, hs) e = elim (Bool-cases (d == x)) [
  | inl m ↦ rw m (cut_prefix-append pre p c s hs (rw m at e))
  | inr m ↦ rw m
]

pub trim_left-All {ℓ} :
    (P : ℕ → Type ℓ) (test : ℕ → Bool) (s : Bytes) → All P s → All P (trim_left test s)
unfolding trim_left
trim_left-All P test [] h = tt
trim_left-All P test (c ∷ s) (h, hs) = elim (Bool-cases (test c)) [
  | inl e ↦ rw e (trim_left-All P test s hs)
  | inr e ↦ rw e (h, hs)
]
