-- ===== src/Number/Bounds.antt =====
-- The bounds of the numbers that integer accepts.
use mathlib.Core.Path.{subst, sym, ap, ◌∙◌}
use abstraction_model.Base.{
  >>=-eq-ok, All, Bool, Bool-cases, Bytes, [], ap, arith, drop, false, if◌then◌else◌, inl, inr, ltb,
  negsuc, ok, pos, refl, some, suc, sym, true, zero, ℕ, ℤ, ◌%◌, ◌*◌, ◌++◌, ◌+◌, ◌-◌, ◌<◌, ◌==◌,
  ◌>>=◌, ◌^◌, ◌∙◌, ◌∷◌, ◌≡◌, ◌⊎◌,
}
use abstraction_model.Number.RoundTrip.{IsInt64}
use abstraction_model.Codec.{at}
use abstraction_model.Number.{
  finish, goes_on, integer, is_digit, less, magnitude, minus, more_digits, signed,
}

-- The value that digits spell behind `u`, with no bound.
abbrev pub value : ℕ → Bytes → ℕ
value u [] = u
value u (c ∷ s) = value (u * 10 + (c - b'0')) s

abbrev pub IsDigits : Bytes → Type 0
IsDigits = All (λ c. is_digit c ≡ true)

-- The loop over the digits stops behind digits, and has their exact value: nothing wrapped around.
pub more_digits-value :
    (s rest : Bytes) (u v : ℕ)
    → u < 2 ^ 64
    → more_digits u s ≡ ok (v, rest)
    → (run : Bytes) × (s ≡ run ++ rest) × IsDigits run × (v ≡ value u run) × (v < 2 ^ 64)
unfolding more_digits is_digit
more_digits-value [] rest u v small same = ([], cc, tt, cc, grind arith)
more_digits-value (c ∷ s) rest u v small same = elim (Bool-cases (is_digit c)) [
  | inr e ↦ ([], cc, tt, grind (arith, more_digits, e), grind (arith, more_digits, e))
  | inl e ↦ elim (Bool-cases (ltb 922337203685477580 u)) [
    | inl large ↦ absurd (grind (arith, more_digits, e, large))
    | inr fits ↦
        let no_wrap : (u * 10 + (c - b'0')) % 2 ^ 64 ≡ u * 10 + (c - b'0') = ground arith in
        let later : more_digits (u * 10 + (c - b'0')) s ≡ ok (v, rest) =
          ap (λ n. more_digits n s) (sym no_wrap) ∙ (grind (arith, more_digits, e, fits)) in
        let (run, split, all, exact, bound) =
          more_digits-value s rest (u * 10 + (c - b'0')) v (ground arith) later in
        (c ∷ run, ap (◌∷◌ c) split, (e, all), exact, bound)
  ]
]

finish-between :
    (low high n : ℤ) (neg : Bool) (m : ℕ × Bytes) (rest : Bytes)
    → finish low high neg m ≡ ok (n, rest)
    → (less n low ≡ false)
      × (less high n ≡ false)
      × (signed neg m.0 ≡ some n)
      × (rest ≡ m.1)
      × (goes_on (at rest) ≡ false)
unfolding finish
finish-between low high n neg m rest same = ground arith

magnitude-value :
    (s rest : Bytes) (v : ℕ)
    → magnitude s ≡ ok (v, rest)
    → (run : Bytes) × (s ≡ run ++ rest) × IsDigits run × (v ≡ value 0 run) × (v < 2 ^ 64)
unfolding magnitude at is_digit
magnitude-value [] rest v same = cc
magnitude-value (c ∷ s) rest v same = elim (Bool-cases (is_digit c)) [
  | inr e ↦ absurd (grind (arith, magnitude, e))
  | inl e ↦ elim (Bool-cases (c == b'0')) [
    | inl zero_first ↦ (
      c ∷ [],
      grind (arith, magnitude, e, zero_first),
      (e, tt),
      grind (arith, magnitude, e, zero_first),
      grind (arith, magnitude, e, zero_first),
    )
    | inr other ↦
        more_digits-value (c ∷ s) rest 0 v (omega arith) (grind (arith, magnitude, e, other))
  ]
]

signed-value :
    (neg : Bool) (u : ℕ) (n : ℤ)
    → signed neg u ≡ some n
    → IsInt64 n × (n ≡ (if neg then minus u else pos u))
unfolding signed
signed-value true zero n same = ground arith
signed-value true (suc u) n same = elim (Bool-cases (suc u == 2 ^ 63)) [
  | inl e ↦
      let u_is : u ≡ 2 ^ 63 - 1 = ground arith in
      let n_is : n ≡ negsuc u = grind (arith, signed, e, u_is) in
      (subst IsInt64 (sym n_is) (omega (arith, u_is)), n_is)
  | inr e ↦ elim (Bool-cases (ltb (2 ^ 63 - 1) (suc u))) [
    | inl large ↦ absurd (grind (arith, signed, e, large))
    | inr fits ↦
        let n_is : n ≡ negsuc u = grind (arith, signed, e, fits) in
        (subst IsInt64 (sym n_is) (ground arith), n_is)
  ]
]
signed-value false u n same = elim (Bool-cases (ltb (2 ^ 63 - 1) u)) [
  | inl e ↦ absurd (grind (arith, signed, e))
  | inr e ↦
      let n_is : n ≡ pos u = grind (arith, signed, e) in
      (subst IsInt64 (sym n_is) (ground arith), n_is)
]

integer-signed :
    (low high : ℤ) (s : Bytes)
    → (at s == b'-') ≡ true
    → integer low high s ≡ (magnitude (drop 1 s) >>= finish low high true)
unfolding integer
integer-signed low high s neg = rw (integer, neg) refl

integer-plain :
    (low high : ℤ) (s : Bytes) {found : ℤ × Bytes}
    → (at s == b'-') ≡ false
    → integer low high s ≡ ok found
    → (magnitude s >>= finish low high false) ≡ ok found
unfolding integer
integer-plain low high s plus same = elim (Bool-cases (is_digit (at s))) [
  | inl e ↦ sym (rw (integer, plus, e) refl) ∙ same
  | inr e ↦ absurd (grind (arith, integer, plus, e))
]

at-drop : (mark : ℕ) (s : Bytes) → 0 < mark → (at s == mark) ≡ true → s ≡ mark ∷ drop 1 s
unfolding at
at-drop mark [] some_mark same = absurd (ground arith)
at-drop mark (c ∷ s) some_mark same = ap (λ n. n ∷ s) (ground arith)

-- An accepted number is its sign and the exact value of its digits, the reader has stopped behind
-- them, and it lies in an int64 and between the two bounds of the field.
pub integer-value :
    (low high n : ℤ) (s rest : Bytes)
    → integer low high s ≡ ok (n, rest)
    → IsInt64 n
      × (less n low ≡ false)
      × (less high n ≡ false)
      × (run : Bytes) × IsDigits run
      × (((s ≡ run ++ rest) × (n ≡ pos (value 0 run)))
          ⊎ ((s ≡ b'-' ∷ (run ++ rest)) × (n ≡ minus (value 0 run))))
unfolding integer
integer-value low high n s rest same = elim (Bool-cases (at s == b'-')) [
  | inl neg ↦
      let read : (magnitude (drop 1 s) >>= finish low high true) ≡ ok (n, rest) =
        sym (integer-signed low high s neg) ∙ same in
      let ((u, t), found, last) = >>=-eq-ok _ _ read in
      let (above, below, signs, stopped, _) = finish-between low high n true (u, t) rest last in
      let (run, split, all, exact, _) = magnitude-value _ t u found in
      let (fits, n_is) = signed-value true u n signs in
      (
        fits,
        above,
        below,
        run,
        all,
        inr (
          at-drop b'-' s (omega arith) neg ∙ ap (◌∷◌ b'-') (split ∙ ap (◌++◌ run) (sym stopped)),
          n_is ∙ ap minus exact,
        ),
      )
  | inr plus ↦
      let read : (magnitude s >>= finish low high false) ≡ ok (n, rest) =
        integer-plain low high s plus same in
      let ((u, t), found, last) = >>=-eq-ok _ _ read in
      let (above, below, signs, stopped, _) = finish-between low high n false (u, t) rest last in
      let (run, split, all, exact, _) = magnitude-value _ t u found in
      let (fits, n_is) = signed-value false u n signs in
      (fits, above, below, run, all, inl (split ∙ ap (◌++◌ run) (sym stopped), n_is ∙ ap pos exact))
]
