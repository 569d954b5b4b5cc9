-- ===== src/Codec.antt =====
-- The JSON strings of go/abstraction/model/api/rec.go: esc and escByte, and the reader's str, escape,
-- hex4, appendRune and validUTF8. A position in the reader's buffer is what is left from there on.
pub mod RoundTrip
pub mod Bounds
use Prim.Native.Nat.{◌/◌, ◌%◌, ◌*◌, ◌+◌, ◌-◌}
use Prim.Native.String.{String}
use abstraction_model.Base.{
  Bool, Bytes, Option, Result, [], codes, drop, err, false, if◌then◌else◌, leb, ltb, none, not, ok,
  some, suc, true, zero, ℕ, ◌%◌, ◌&&◌, ◌*◌, ◌++◌, ◌+◌, ◌-◌, ◌/◌, ◌==◌, ◌||◌, ◌∷◌,
}

-- Refusal: its word, and what is left of the buffer at its offset.
pub record Refusal : Type 0 where
  pub word : Bytes
  pub left : Bytes

abbrev pub refuse : {A : Type 0} → String → Bytes → Result Refusal A
refuse word left = err (record { word = codes word; left = left })

-- `hex[n]`.
unfoldable pub hex_digit : ℕ → ℕ
hex_digit n = if ltb n 10 then b'0' + n else b'a' + (n - 10)

unfoldable pub esc_byte : ℕ → Bytes
esc_byte c =
    if c == 34
    then 92 ∷ 34 ∷ []
    else if c == 92
    then 92 ∷ 92 ∷ []
    else if c == 8
    then 92 ∷ b'b' ∷ []
    else if c == 12
    then 92 ∷ b'f' ∷ []
    else if c == 10
    then 92 ∷ b'n' ∷ []
    else if c == 13
    then 92 ∷ b'r' ∷ []
    else if c == 9
    then 92 ∷ b't' ∷ []
    else if ltb c 32
    then 92 ∷ b'u' ∷ b'0' ∷ b'0' ∷ hex_digit (c / 16) ∷ hex_digit (c % 16) ∷ []
    else c ∷ []

unfoldable pub esc_all : Bytes → Bytes
esc_all [] = []
esc_all (c ∷ s) = esc_byte c ++ esc_all s

unfoldable pub esc : Bytes → Bytes
esc s = 34 ∷ (esc_all s ++ 34 ∷ [])

unfoldable pub hex_value : ℕ → Option ℕ
hex_value c =
    if leb b'0' c && leb c b'9'
    then some (c - b'0')
    else if leb b'a' c && leb c b'f'
    then some (c - b'a' + 10)
    else if leb b'A' c && leb c b'F'
    then some (c - b'A' + 10)
    else none

abbrev pub four_digits : Option ℕ → Option ℕ → Option ℕ → Option ℕ → Option ℕ
four_digits (some a) (some b) (some c) (some d) = some (((a * 16 + b) * 16 + c) * 16 + d)
four_digits _ _ _ _ = none

unfoldable pub hex4 : Bytes → Option ℕ
hex4 (a ∷ (b ∷ (c ∷ (d ∷ s)))) = four_digits (hex_value a) (hex_value b) (hex_value c) (hex_value d)
hex4 _ = none

-- appendRune, of a code point below 2 ^ 21.
unfoldable pub rune_bytes : ℕ → Bytes
rune_bytes u =
    if ltb u 128
    then u ∷ []
    else if ltb u 2048
    then (192 + u / 64) ∷ (128 + u % 64) ∷ []
    else if ltb u 65536
    then (224 + u / 4096) ∷ (128 + u / 64 % 64) ∷ (128 + u % 64) ∷ []
    else (240 + u / 262144) ∷ (128 + u / 4096 % 64) ∷ (128 + u / 64 % 64) ∷ (128 + u % 64) ∷ []

-- A low surrogate behind the high surrogate `u`: what the pair stands for, in twelve bytes.
abbrev pub low_half : ℕ → Bytes → Option ℕ → Result Refusal (Bytes × ℕ)
low_half u s none = refuse "bad_string" s
low_half u s (some lo) =
    if ltb lo 56320 || ltb 57343 lo
    then refuse "bad_string" (drop 4 s)
    else ok (rune_bytes (65536 + (u - 55296) * 1024 + (lo - 56320)), 11)

abbrev pub surrogate : ℕ → Bytes → Result Refusal (Bytes × ℕ)
surrogate u (a ∷ (b ∷ s)) =
    if a == 92 && b == b'u' then low_half u s (hex4 s) else refuse "bad_string" (a ∷ b ∷ s)
surrogate u s = refuse "bad_string" s

-- The `\u` escape, from what stands behind it; the number is what is read behind the backslash.
abbrev pub unicode : Bytes → Option ℕ → Result Refusal (Bytes × ℕ)
unicode s none = refuse "bad_string" s
unicode s (some u) =
    if leb 56320 u && leb u 57343
    then refuse "bad_string" (drop 4 s)
    else elim (leb 55296 u && leb u 56319) [
      | true ↦ surrogate u (drop 4 s)
      | false ↦ ok (rune_bytes u, 5)
    ]

-- escape, from what stands behind the backslash.
unfoldable pub escape : Bytes → Result Refusal (Bytes × ℕ)
escape [] = refuse "malformed" []
escape (c ∷ s) =
    if c == 34 || c == 92 || c == b'/'
    then ok (c ∷ [], 1)
    else if c == b'b'
    then ok (8 ∷ [], 1)
    else if c == b'f'
    then ok (12 ∷ [], 1)
    else if c == b'n'
    then ok (10 ∷ [], 1)
    else if c == b'r'
    then ok (13 ∷ [], 1)
    else if c == b't'
    then ok (9 ∷ [], 1)
    else if c == b'u'
    then unicode s (hex4 s)
    else refuse "bad_string" s

-- The cases of the loop of str.
pub data Kind : Type 0 where
  closing control backslash plain_byte : Kind

unfoldable pub kind_of : ℕ → Kind
kind_of c =
    if c == 34
    then closing
    else if ltb c 32
    then control
    else if c == 92
    then backslash
    else plain_byte

-- What a first byte of validUTF8 starts: itself, or so many further bytes, with its own bits of the
-- code point and the lowest code point that may be spelled so.
pub data Lead : Type 0 where
  alone : Lead
  more : ℕ → ℕ → ℕ → Lead
  no_lead : Lead

unfoldable pub lead : ℕ → Lead
lead c =
    if ltb c 128
    then alone
    else if c / 32 == 6
    then more 1 (c % 32) 128
    else if c / 16 == 14
    then more 2 (c % 16) 2048
    else if c / 8 == 30
    then more 3 (c % 8) 65536
    else no_lead

-- The code point that `n` further bytes complete.
unfoldable pub continued : ℕ → ℕ → Bytes → Option ℕ
continued zero cp s = some cp
continued (suc n) cp [] = none
continued (suc n) cp (c ∷ s) = elim (c / 64 == 2) [
  | true ↦ continued n (cp * 64 + c % 64) s
  | false ↦ none
]

abbrev pub good_point : ℕ → Option ℕ → Bool
good_point lowest none = false
good_point lowest (some cp) =
    not (ltb cp lowest || ltb 1114111 cp || (leb 55296 cp && leb cp 57343))

-- The number is how many bytes of a sequence are still to pass.
unfoldable pub valid_loop : ℕ → Bytes → Bool
valid_loop k [] = true
valid_loop (suc k) (c ∷ s) = valid_loop k s
valid_loop zero (c ∷ s) = elim (lead c) [
  | alone ↦ valid_loop 0 s
  | more n cp lowest ↦ elim (good_point lowest (continued n cp s)) [
    | true ↦ valid_loop n s
    | false ↦ false
  ]
  | no_lead ↦ false
]

unfoldable pub valid_utf8 : Bytes → Bool
valid_utf8 = valid_loop 0

-- The loop of str: `k` is how many bytes of an escape are still to pass.
unfoldable pub str_loop : ℕ → Bytes → Bytes → Result Refusal (Bytes × Bytes)
str_loop k out [] = refuse "malformed" []
str_loop (suc k) out (c ∷ s) = str_loop k out s
str_loop zero out (c ∷ s) = elim (kind_of c) [
  | closing ↦ if valid_utf8 out then ok (out, s) else refuse "bad_string" s
  | control ↦ refuse "bad_string" (c ∷ s)
  | backslash ↦ elim (escape s) [ ok (bytes, n) ↦ str_loop n (out ++ bytes) s | err e ↦ err e ]
  | plain_byte ↦ str_loop 0 (out ++ c ∷ []) s
]

unfoldable pub str : Bytes → Result Refusal (Bytes × Bytes)
str [] = refuse "wrong_type" []
str (c ∷ s) = if c == 34 then str_loop 0 [] s else refuse "wrong_type" (c ∷ s)

-- ws.
unfoldable pub skip_white : Bytes → Bytes
skip_white [] = []
skip_white (c ∷ s) =
    let rest = skip_white s in if c == b' ' || c == 9 || c == 10 || c == 13 then rest else c ∷ s

-- at: 0 at the end of the buffer.
unfoldable pub at : Bytes → ℕ
at [] = 0
at (c ∷ s) = c
