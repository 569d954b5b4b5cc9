-- ===== src/Identity/Token.antt =====
-- The tests on a single token: digits, isVersion, isParams, isQuantLevel and isBlockFormat.
use abstraction_model.Base.{
  ℕ, ◌+◌, ◌-◌, ◌*◌, ◌%◌, ◌^◌, Bool, true, false, ◌&&◌, ◌||◌, Option, none, some, [], ◌∷◌, Bytes,
  codes, ltb, leb, ◌==◌, if◌then◌else◌, length,
}
use abstraction_model.Strings.{trim_prefix, has_any}

unfoldable pub is_digit : ℕ → Bool
is_digit c = leb b'0' c && leb c b'9'

unfoldable pub all_digits : Bytes → Bool
unfolding is_digit
all_digits [] = true
all_digits (c ∷ t) = is_digit c && all_digits t

-- One round of the loop, on the 64-bit pattern of an int.
abbrev pub next_value : ℕ → ℕ → ℕ
next_value n c = (n * 10 + (c - b'0')) % 2 ^ 64

digits_from : ℕ → Bytes → ℕ
digits_from n [] = n
digits_from n (c ∷ t) = digits_from (next_value n c) t

-- The 64-bit pattern of the result; 0 if a byte is no digit.
unfoldable pub digits : Bytes → ℕ
unfolding digits_from all_digits
digits t = if all_digits t then digits_from 0 t else 0

-- `n > 0` on the pattern of an int.
unfoldable pub positive : ℕ → Bool
positive n = ltb 0 n && ltb n (2 ^ 63)

unfoldable pub version_byte : ℕ → Bool
unfolding is_digit
version_byte c = is_digit c || c == b'.'

unfoldable pub all_version : Bytes → Bool
unfolding version_byte
all_version [] = true
all_version (c ∷ t) = version_byte c && all_version t

unfoldable pub starts_digit : Bytes → Bool
unfolding is_digit
starts_digit [] = false
starts_digit (c ∷ t) = is_digit c

unfoldable pub is_version : Bytes → Bool
unfolding trim_prefix all_version starts_digit
is_version t = let body = trim_prefix (codes "v") t in all_version body && starts_digit body

-- The counts of digits, dots and x in a token's body, or none at any other byte.
unfoldable pub body_counts : Bytes → ℕ → ℕ → ℕ → Option (ℕ × ℕ × ℕ)
unfolding is_digit
body_counts [] digit_count dots xs = some (digit_count, dots, xs)
body_counts (c ∷ t) digit_count dots xs =
    let digit = is_digit c in
    let dot = c == b'.' in
    let rest =
      body_counts t (if digit then digit_count + 1 else digit_count)
        (if digit then dots else if dot then dots + 1 else dots)
        (if digit || dot then xs else xs + 1) in
    if digit || dot || c == b'x' then rest else none

-- The token without its last byte, and that byte.
unfoldable pub split_end : Bytes → Option (Bytes × ℕ)
split_end [] = none
split_end (c ∷ t) = elim (split_end t) [
  | none ↦ some ([], c)
  | some (body, last) ↦ some (c ∷ body, last)
]

unfoldable pub is_params : Bytes → Bool
unfolding split_end trim_prefix body_counts
is_params t = elim (split_end t) [
  | none ↦ false
  | some (body, last) ↦
      (last == b'b' || last == b'm' || last == b'k')
      && elim (body_counts (trim_prefix (codes "a") body) 0 0 0) [
        | none ↦ false
        | some (digit_count, dots, xs) ↦ ltb 0 digit_count && leb dots 1 && leb xs 1
      ]
]

unfoldable pub level_of : Bytes → Bool
unfolding all_digits
level_of [] = false
level_of (q ∷ []) = false
level_of (q ∷ (d ∷ t)) = q == b'q' && all_digits (d ∷ t)

unfoldable pub is_quant_level : Bytes → Bool
unfolding trim_prefix level_of
is_quant_level t = level_of (trim_prefix (codes "i") t)

unfoldable pub starts_e : Bytes → Bool
starts_e [] = false
starts_e (c ∷ t) = c == b'e'

unfoldable pub is_block_format : Bytes → Bool
unfolding has_any starts_e
is_block_format t = leb 4 (length t) && starts_e t && has_any (codes "m") t
