-- ===== src/Raw.antt =====
-- go/abstraction/model/api/rec.go: the opaque values of a frame, which the reader walks and keeps as
-- they are spelt: rawValue, skipValue and what it calls.
pub mod Walk
pub mod Bounds
use abstraction_model.Base.{
  Bool, Bytes, List, Result, [], codes, contains, drop, false, if◌then◌else◌, leb, length, ok, suc,
  take, true, zero, ℕ, ◌&&◌, ◌-◌, ◌==◌, ◌>>=◌, ◌||◌, ◌∷◌,
}
use abstraction_model.Codec.{Refusal, at, refuse, skip_white, str}
use abstraction_model.Record.{expect}
use abstraction_model.Number.{is_digit, literal}

unfoldable pub skip_string : Bytes → Result Refusal Bytes
skip_string s = do (word, rest) ← str s; ok rest

-- The loop over digits, which somedigits and skipNumber have.
unfoldable pub past_digits : Bytes → Bytes
past_digits [] = []
past_digits (c ∷ s) = let rest = past_digits s in if is_digit c then rest else c ∷ s

unfoldable pub some_digits : Bytes → Result Refusal Bytes
some_digits s = if is_digit (at s) then ok (past_digits s) else refuse "number_spelling" s

unfoldable pub whole_part : Bytes → Result Refusal Bytes
whole_part s =
    if at s == b'0'
    then ok (drop 1 s)
    else if leb b'1' (at s) && leb (at s) b'9'
    then ok (past_digits s)
    else refuse "number_spelling" s

unfoldable pub fraction : Bytes → Result Refusal Bytes
fraction s = if at s == b'.' then some_digits (drop 1 s) else ok s

unfoldable pub past_sign : Bytes → Bytes
past_sign s = if at s == b'+' || at s == b'-' then drop 1 s else s

unfoldable pub exponent : Bytes → Result Refusal Bytes
exponent s = if at s == b'e' || at s == b'E' then some_digits (past_sign (drop 1 s)) else ok s

unfoldable pub skip_number : Bytes → Result Refusal Bytes
skip_number s = do t ← whole_part (if at s == b'-' then drop 1 s else s); u ← fraction t; exponent u

-- What stands in front of an item: in an object a key that is new, in an array nothing.
unfoldable pub item_key : Bool → List Bytes → Bytes → Result Refusal (List Bytes × Bytes)
item_key keyed seen s = elim keyed [
  | true ↦ elim (at s == 34) [
    | true ↦ do
      (name, t) ← str s
      u ← if contains name seen then refuse "duplicate_key" t else expect b':' (skip_white t)
      ok (name ∷ seen, skip_white u)
    | false ↦ refuse "malformed" s
  ]
  | false ↦ ok (seen, s)
]

-- The loop over the items, each of which `value` skips; a round passes a byte at least.
unfoldable pub items :
    ℕ → (Bytes → Result Refusal Bytes) → Bool → List Bytes → Bytes → Result Refusal Bytes
items zero value keyed seen s = refuse "fuel" s
items (suc n) value keyed seen s = do
  (names, t) ← item_key keyed seen (skip_white s)
  u ← value t
  elim (at (skip_white u) == 44) [
    | true ↦ items n value keyed names (drop 1 (skip_white u))
    | false ↦ ok (skip_white u)
  ]

-- skipContainer behind its enter, where `value` skips what stands in the container.
unfoldable pub contents : (Bytes → Result Refusal Bytes) → Bytes → Result Refusal Bytes
contents value s =
    let keyed = at s == b'{' in
    let shut = if keyed then b'}' else b']' in
    let t = skip_white (drop 1 s) in
    (if at t == shut then ok t else items (suc (length t)) value keyed [] t) >>= expect shut

-- The cases of skipValue.
pub data Sort : Type 0 where
  quoted_text container true_word false_word null_word number none_of_them : Sort

unfoldable pub sort_of : ℕ → Sort
sort_of c =
    if c == 34
    then quoted_text
    else if c == b'{' || c == b'['
    then container
    else if c == b't'
    then true_word
    else if c == b'f'
    then false_word
    else if c == b'n'
    then null_word
    else if c == b'-' || is_digit c
    then number
    else none_of_them

-- The switch of skipValue.
unfoldable pub skip_switch : (Bytes → Result Refusal Bytes) → Bytes → Result Refusal Bytes
skip_switch skip_container s = elim (sort_of (at s)) [
  | quoted_text ↦ skip_string s
  | container ↦ skip_container s
  | true_word ↦ literal (codes "true") s
  | false_word ↦ literal (codes "false") s
  | null_word ↦ literal (codes "null") s
  | number ↦ skip_number s
  | none_of_them ↦ refuse "malformed" s
]

-- `room` is how many containers may still be opened.
unfoldable pub skip_value : ℕ → Bytes → Result Refusal Bytes
skip_value zero s = skip_switch (refuse "depth_exceeded") s
skip_value (suc room) s = skip_switch (contents (skip_value room)) s

-- rawValue: the bytes of the value, as they are.
unfoldable pub raw_value : ℕ → Bytes → Result Refusal (Bytes × Bytes)
raw_value room s = do rest ← skip_value room s; ok (take (length s - length rest) s, rest)
