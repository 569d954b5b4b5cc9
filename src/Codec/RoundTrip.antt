-- ===== src/Codec/RoundTrip.antt =====
-- What str reads back of what esc writes.
use mathlib.Core.Path.{subst, sym, ap, ◌∙◌}
use mathlib.Core.List.{append_assoc}
use abstraction_model.Base.{
  Bool-cases, Bytes, [], ap, append-nil, append_assoc, arith, false, inl, inr, leb, ltb, ok, refl,
  some, sym, true, ℕ, ◌%◌, ◌&&◌, ◌*◌, ◌++◌, ◌+◌, ◌/◌, ◌<◌, ◌==◌, ◌∙◌, ◌∷◌, ◌≡◌,
}
use abstraction_model.Codec.{
  esc, esc_all, esc_byte, escape, four_digits, hex4, hex_digit, hex_value, kind_of, plain_byte,
  rune_bytes, str, str_loop, unicode, valid_utf8,
}

-- A byte, and a spelling of it that the reader takes for it.
pub data Spelled : ℕ → Bytes → Type 0 where
  letter : (c d : ℕ) → ((s : Bytes) → escape (d ∷ s) ≡ ok (c ∷ [], 1)) → Spelled c (92 ∷ d ∷ [])
  digits_of :
      (c x y : ℕ)
      → ((s : Bytes) → escape (b'u' ∷ b'0' ∷ b'0' ∷ x ∷ y ∷ s) ≡ ok (c ∷ [], 5))
      → Spelled c (92 ∷ b'u' ∷ b'0' ∷ b'0' ∷ x ∷ y ∷ [])
  itself : (c : ℕ) → kind_of c ≡ plain_byte → Spelled c (c ∷ [])

hex_value-hex_digit : (n : ℕ) → n < 16 → hex_value (hex_digit n) ≡ some n
unfolding hex_value hex_digit
hex_value-hex_digit n h = ground arith

unicode-small : (c : ℕ) → c < 32 → (s : Bytes) → unicode s (some c) ≡ ok (c ∷ [], 5)
unfolding rune_bytes
unicode-small c h s =
    let a : (leb 56320 c && leb c 57343) ≡ false = ground arith in
    let b : (leb 55296 c && leb c 56319) ≡ false = ground arith in
    let d : ltb c 128 ≡ true = ground arith in rw (a, b, d)

escape-digits :
    (c : ℕ)
    → c < 32
    → (s : Bytes)
    → escape (b'u' ∷ b'0' ∷ b'0' ∷ hex_digit (c / 16) ∷ hex_digit (c % 16) ∷ s) ≡ ok (c ∷ [], 5)
unfolding escape hex4 hex_value
escape-digits c h s =
    let high : hex_value (hex_digit (c / 16)) ≡ some (c / 16) =
      hex_value-hex_digit (c / 16) (omega arith) in
    let low : hex_value (hex_digit (c % 16)) ≡ some (c % 16) =
      hex_value-hex_digit (c % 16) (omega arith) in
    let value : ((0 * 16 + 0) * 16 + c / 16) * 16 + c % 16 ≡ c = omega arith in
    let four : four_digits (some 0) (some 0) (hex_value (hex_digit (c / 16)))
          (hex_value (hex_digit (c % 16)))
        ≡ some c =
      rw (high, low) (ap some value) in
    ap (unicode (b'0' ∷ b'0' ∷ hex_digit (c / 16) ∷ hex_digit (c % 16) ∷ s)) four
    ∙ unicode-small c h (b'0' ∷ b'0' ∷ hex_digit (c / 16) ∷ hex_digit (c % 16) ∷ s)

same_as : (c n : ℕ) → (c == n) ≡ true → n ≡ c
same_as c n e = ground arith

esc_byte-Spelled : (c : ℕ) → Spelled c (esc_byte c)
unfolding esc_byte kind_of escape
esc_byte-Spelled c = elim (Bool-cases (c == 34)) [
  | inl e ↦ subst (λ x. Spelled x (esc_byte x)) (same_as c 34 e) (letter 34 34 (λ s. refl))
  | inr e34 ↦ elim (Bool-cases (c == 92)) [
    | inl e ↦ subst (λ x. Spelled x (esc_byte x)) (same_as c 92 e) (letter 92 92 (λ s. refl))
    | inr e92 ↦ elim (Bool-cases (c == 8)) [
      | inl e ↦ subst (λ x. Spelled x (esc_byte x)) (same_as c 8 e) (letter 8 b'b' (λ s. refl))
      | inr e8 ↦ elim (Bool-cases (c == 12)) [
        | inl e ↦ subst (λ x. Spelled x (esc_byte x)) (same_as c 12 e) (letter 12 b'f' (λ s. refl))
        | inr e12 ↦ elim (Bool-cases (c == 10)) [
          | inl e ↦
              subst (λ x. Spelled x (esc_byte x)) (same_as c 10 e) (letter 10 b'n' (λ s. refl))
          | inr e10 ↦ elim (Bool-cases (c == 13)) [
            | inl e ↦
                subst (λ x. Spelled x (esc_byte x)) (same_as c 13 e) (letter 13 b'r' (λ s. refl))
            | inr e13 ↦ elim (Bool-cases (c == 9)) [
              | inl e ↦
                  subst (λ x. Spelled x (esc_byte x)) (same_as c 9 e) (letter 9 b't' (λ s. refl))
              | inr e9 ↦ elim (Bool-cases (ltb c 32)) [
                | inl e ↦
                    rw (e34, e92, e8, e12, e10, e13, e9, e)
                      (digits_of c (hex_digit (c / 16)) (hex_digit (c % 16))
                        (escape-digits c (ground arith)))
                | inr e ↦ rw (e34, e92, e8, e12, e10, e13, e9, e) (itself c (rw (e34, e, e92) refl))
              ]
            ]
          ]
        ]
      ]
    ]
  ]
]

str_loop-Spelled :
    {c : ℕ} {t : Bytes} (out s : Bytes)
    → Spelled c t
    → str_loop 0 out (t ++ s) ≡ str_loop 0 (out ++ c ∷ []) s
unfolding str_loop kind_of
str_loop-Spelled out s (letter c d e) = rw (str_loop, e s)
str_loop-Spelled out s (digits_of c x y e) = rw (str_loop, e s)
str_loop-Spelled out s (itself c e) = rw (str_loop, e)

str_loop-esc_all :
    (s out rest : Bytes) → str_loop 0 out (esc_all s ++ rest) ≡ str_loop 0 (out ++ s) rest
unfolding esc_all
str_loop-esc_all [] out rest = ap (λ (x : Bytes). str_loop 0 x rest) (sym (append-nil out))
str_loop-esc_all (c ∷ s) out rest =
    ap (str_loop 0 out) (append_assoc (esc_byte c) (esc_all s) rest)
    ∙ str_loop-Spelled out (esc_all s ++ rest) (esc_byte-Spelled c)
    ∙ str_loop-esc_all s (out ++ c ∷ []) rest
    ∙ ap (λ (x : Bytes). str_loop 0 x rest) (append_assoc out (c ∷ []) s)

closes_at : (s rest : Bytes) → valid_utf8 s ≡ true → str_loop 0 s (34 ∷ rest) ≡ ok (s, rest)
unfolding str_loop kind_of
closes_at s rest h = rw (str_loop, h)

-- The reader reads back every valid string that the writer quotes, control characters, quotes and
-- backslashes included, and stops behind the closing quote.
pub str-esc : (s rest : Bytes) → valid_utf8 s ≡ true → str (esc s ++ rest) ≡ ok (s, rest)
unfolding str esc str_loop kind_of
str-esc s rest h =
    ap (str_loop 0 []) (append_assoc (esc_all s) (34 ∷ []) rest)
    ∙ str_loop-esc_all s [] (34 ∷ rest)
    ∙ closes_at s rest h
