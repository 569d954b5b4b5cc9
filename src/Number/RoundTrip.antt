-- ===== src/Number/RoundTrip.antt =====
-- What integer reads back of what num writes.
use mathlib.Core.Path.{subst, sym, ap, ◌∙◌}
use abstraction_model.Base.{
  >>=-ok, Bool-cases, Bytes, [], ap, arith, false, inl, inr, ltb, negsuc, ok, pos, refl, some, suc,
  sym, true, zero, ℕ, ℤ, ◌%◌, ◌++◌, ◌+◌, ◌-◌, ◌/◌, ◌<◌, ◌==◌, ◌^◌, ◌∙◌, ◌∷◌, ◌≡◌, ◌≤◌,
}
use abstraction_model.Codec.{at}
use abstraction_model.Number.{
  digits, finish, goes_on, integer, is_digit, less, magnitude, more_digits, num, signed,
}

digits-append : (k u : ℕ) (out rest : Bytes) → digits k u out ++ rest ≡ digits k u (out ++ rest)
unfolding digits
digits-append zero u out rest = refl
digits-append (suc k) u out rest = elim (Bool-cases (u == 0)) [
  | inl e ↦ rw (digits, e) refl
  | inr e ↦ rw (digits, e) (digits-append k (u / 10) ((b'0' + u % 10) ∷ out) rest)
]

-- One more digit.
more_digits-digit :
    (u : ℕ) (rest : Bytes)
    → u ≤ 2 ^ 63
    → more_digits (u / 10) ((b'0' + u % 10) ∷ rest) ≡ more_digits u rest
unfolding more_digits is_digit
more_digits-digit u rest h = ground arith

more_digits-digits :
    (k u : ℕ) (rest : Bytes)
    → u < 10 ^ k
    → u ≤ 2 ^ 63
    → more_digits 0 (digits k u rest) ≡ more_digits u rest
unfolding digits
more_digits-digits zero u rest small h = ap (λ n. more_digits n rest) (omega arith)
more_digits-digits (suc k) u rest small h = elim (Bool-cases (u == 0)) [
  | inl e ↦ rw (digits, e) (ap (λ n. more_digits n rest) (ground arith))
  | inr e ↦
      rw (digits, e)
        (more_digits-digits k (u / 10) ((b'0' + u % 10) ∷ rest) (omega arith) (omega arith)
          ∙ more_digits-digit u rest h)
]

digits-zero : (k : ℕ) (out : Bytes) → digits k 0 out ≡ out
unfolding digits
digits-zero zero out = refl
digits-zero (suc k) out = refl

-- The first digit is not a zero.
abbrev Leads : Bytes → Type 0
Leads s = (b'0' < at s) × (at s ≤ b'9')

digits-Leads : (k u : ℕ) (out : Bytes) → 0 < u → u < 10 ^ k → Leads (digits k u out)
unfolding digits at
digits-Leads zero u out up small = absurd (omega arith)
digits-Leads (suc k) u out up small =
    let some_left : (u == 0) ≡ false = ground arith in
    let step : digits (suc k) u out ≡ digits k (u / 10) ((b'0' + u % 10) ∷ out) =
      rw (digits, some_left) refl in
    elim (Bool-cases (u / 10 == 0)) [
      | inl e ↦
          let zero_left : u / 10 ≡ 0 = ground arith in
          subst Leads
            (sym (
              step
              ∙ ap (λ n. digits k n ((b'0' + u % 10) ∷ out)) zero_left
              ∙ digits-zero k ((b'0' + u % 10) ∷ out)))
            (omega arith, omega arith)
      | inr e ↦
          subst Leads (sym step)
            (digits-Leads k (u / 10) ((b'0' + u % 10) ∷ out) (ground arith) (omega arith))
    ]

-- What may stand behind a number: nothing that goes on with it.
more_digits-stop :
    (u : ℕ) (rest : Bytes) → goes_on (at rest) ≡ false → more_digits u rest ≡ ok (u, rest)
unfolding more_digits goes_on at
more_digits-stop u [] h = refl
more_digits-stop u (c ∷ s) h =
    let no : is_digit c ≡ false = ground (arith, h) in rw (more_digits, no) refl

is_digit-between : {c : ℕ} → b'0' < c → c ≤ b'9' → is_digit c ≡ true
unfolding is_digit
is_digit-between low high = ground arith

magnitude-digits :
    (u : ℕ) (rest : Bytes)
    → 0 < u
    → u ≤ 2 ^ 63
    → goes_on (at rest) ≡ false
    → magnitude (digits 24 u rest) ≡ ok (u, rest)
unfolding magnitude
magnitude-digits u rest up h stop =
    let (low, high) = digits-Leads 24 u rest up (omega arith) in
    let digit : is_digit (at (digits 24 u rest)) ≡ true = is_digit-between low high in
    let large : (at (digits 24 u rest) == b'0') ≡ false = ground arith in
    rw (digit, large) (more_digits-digits 24 u rest (omega arith) h ∙ more_digits-stop u rest stop)

-- The numbers of an int64.
abbrev pub IsInt64 : ℤ → Type 0
IsInt64 (pos n) = n < 2 ^ 63
IsInt64 (negsuc n) = n < 2 ^ 63

integer-digits :
    (low high : ℤ) (u : ℕ) (rest : Bytes)
    → 0 < u
    → u < 2 ^ 63
    → less (pos u) low ≡ false
    → less high (pos u) ≡ false
    → goes_on (at rest) ≡ false
    → integer low high (digits 24 u rest) ≡ ok (pos u, rest)
unfolding integer finish signed
integer-digits low high u rest up small above below stop =
    let (first, last) = digits-Leads 24 u rest up (omega arith) in
    let unsigned : (at (digits 24 u rest) == b'-') ≡ false = ground arith in
    let no : ltb (2 ^ 63 - 1) u ≡ false = ground arith in
    rw (unsigned, is_digit-between first last)
      (>>=-ok _ (magnitude-digits u rest up (omega arith) stop) ∙ rw (stop, no, above, below))

signed-minus : (n : ℕ) → n < 2 ^ 63 → signed true (suc n) ≡ some (negsuc n)
unfolding signed
signed-minus n small = elim (Bool-cases (suc n == 2 ^ 63)) [
  | inl e ↦ rw e (ap (λ k. some (negsuc k)) (ground arith))
  | inr e ↦ let no : ltb (2 ^ 63 - 1) (suc n) ≡ false = ground arith in rw (e, no) refl
]

integer-minus :
    (low high : ℤ) (n : ℕ) (rest : Bytes)
    → n < 2 ^ 63
    → less (negsuc n) low ≡ false
    → less high (negsuc n) ≡ false
    → goes_on (at rest) ≡ false
    → integer low high (b'-' ∷ digits 24 (suc n) rest) ≡ ok (negsuc n, rest)
unfolding integer finish signed at
integer-minus low high n rest small above below stop =
    let some_left : (suc n == 0) ≡ false = ground arith in
    >>=-ok _ (magnitude-digits (suc n) rest (omega arith) (omega arith) stop)
    ∙ rw (finish, stop, some_left, signed-minus n small, above, below) refl

-- Every int64 that a field may hold is read back from its decimal digits, and the reader stops behind
-- them.
pub integer-num :
    (low high n : ℤ) (rest : Bytes)
    → IsInt64 n
    → less n low ≡ false
    → less high n ≡ false
    → goes_on (at rest) ≡ false
    → integer low high (num n ++ rest) ≡ ok (n, rest)
unfolding num integer at is_digit magnitude finish signed
integer-num low high (pos zero) rest small above below stop = rw (stop, above, below) refl
integer-num low high (pos (suc n)) rest small above below stop =
    ap (integer low high) (digits-append 24 (suc n) [] rest)
    ∙ integer-digits low high (suc n) rest (omega arith) small above below stop
integer-num low high (negsuc n) rest small above below stop =
    ap (λ s. integer low high (b'-' ∷ s)) (digits-append 24 (suc n) [] rest)
    ∙ integer-minus low high n rest small above below stop

-- A number that was written starts with no white space.
pub num-at : (n : ℤ) (rest : Bytes) → IsInt64 n → b' ' < at (num n ++ rest)
unfolding num at
num-at (pos zero) rest small = omega arith
num-at (pos (suc n)) rest small =
    subst (λ s. b' ' < at s) (sym (digits-append 24 (suc n) [] rest))
      (let (first, last) = digits-Leads 24 (suc n) rest (omega arith) (omega (arith, small)) in
        omega (arith, first))
num-at (negsuc n) rest small = omega arith
