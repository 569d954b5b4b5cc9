-- ===== src/Raw/Bounds.antt =====
-- Numbers, words and opaque values stay within the buffer, whatever it holds, and the loop over the
-- items of a container has fuel enough.
use Prim.Native.Nat.{◌≤◌}
use abstraction_model.Base.{
  Bool, Bool-cases, Bytes, List, Result, [], arith, codes, contains, drop, equal, false,
  if◌then◌else◌, inl, inr, leb, length, ok, refl, suc, true, zero, ℕ, ◌&&◌, ◌<◌, ◌==◌, ◌||◌, ◌∷◌,
  ◌≤◌,
}
use abstraction_model.Record.{expect}
use abstraction_model.Codec.{Refusal, at, refuse, skip_white, str}
use abstraction_model.Codec.Bounds.{
  >>=-Within, Within, Within-ok, Within-≤, behind, elim-Within, if-Within, str-Within,
}
use abstraction_model.Number.Within.{literal-Within}
use abstraction_model.Record.Bounds.{
  Within-white, all_of, expect-Within, length-drop_one, length-skip_white, passes,
}
use abstraction_model.Number.{is_digit, literal}
use abstraction_model.Raw.{
  container, contents, exponent, false_word, fraction, item_key, items, none_of_them, null_word,
  number, past_digits, past_sign, quoted_text, raw_value, skip_number, skip_string, skip_switch,
  skip_value, some_digits, sort_of, true_word, whole_part,
}

length-past_digits : (s : Bytes) → length (past_digits s) ≤ length s
unfolding past_digits
length-past_digits [] = omega arith
length-past_digits (c ∷ s) = elim (Bool-cases (is_digit c)) [
  | inl e ↦ rw e (omega (arith, length-past_digits s))
  | inr e ↦ rw e (omega arith)
]

some_digits-Within : (s : Bytes) → Within all_of (length s) (some_digits s)
unfolding some_digits contains equal
some_digits-Within s =
    if-Within all_of (length s) (is_digit (at s)) _ _ (length-past_digits s) (refl, omega arith)

length-past_sign : (s : Bytes) → length (past_sign s) ≤ length s
unfolding past_sign
length-past_sign s =
    elim (at s == b'+' || at s == b'-') as (λ b. length (if b then drop 1 s else s) ≤ length s) [
      | true ↦ length-drop_one s
      | false ↦ omega arith
    ]

whole_part-Within : (s : Bytes) → Within all_of (length s) (whole_part s)
unfolding whole_part contains equal
whole_part-Within s = if-Within all_of (length s) (at s == b'0') _ _ (length-drop_one s) (
    if-Within all_of (length s) (leb b'1' (at s) && leb (at s) b'9') _ _ (length-past_digits s)
      (refl, omega arith))

fraction-Within : (s : Bytes) → Within all_of (length s) (fraction s)
unfolding fraction
fraction-Within s =
    if-Within all_of (length s) (at s == b'.') _ _
      (Within-≤ all_of (some_digits (drop 1 s)) (length-drop_one s) (some_digits-Within (drop 1 s)))
      (omega arith)

exponent-Within : (s : Bytes) → Within all_of (length s) (exponent s)
unfolding exponent
exponent-Within s =
    if-Within all_of (length s) (at s == b'e' || at s == b'E') _ _
      (Within-≤ all_of (some_digits (past_sign (drop 1 s)))
        (omega (arith, length-drop_one s, length-past_sign (drop 1 s)))
        (some_digits-Within (past_sign (drop 1 s))))
      (omega arith)

skip_number-Within : (s : Bytes) → Within all_of (length s) (skip_number s)
unfolding skip_number
skip_number-Within s =
    let t = if at s == b'-' then drop 1 s else s in
    let shorter : length t ≤ length s =
      elim (at s == b'-') as (λ b. length (if b then drop 1 s else s) ≤ length s) [
        | true ↦ length-drop_one s
        | false ↦ omega arith
      ] in
    >>=-Within all_of all_of (length s) (whole_part t) _
      (Within-≤ all_of (whole_part t) shorter (whole_part-Within t))
      λ u _.
        >>=-Within all_of all_of (length u) (fraction u) _ (fraction-Within u)
          λ w _. exponent-Within w

skip_string-Within : (s : Bytes) → Within all_of (length s) (skip_string s)
unfolding skip_string
skip_string-Within s =
    >>=-Within behind all_of (length s) (str s) _ (str-Within s) λ p _. omega arith

item_key-Within :
    (keyed : Bool) (seen : List Bytes) (s : Bytes)
    → Within behind (length s) (item_key keyed seen s)
unfolding item_key contains equal
item_key-Within false seen s = omega arith
item_key-Within true seen s =
    elim-Within behind (length s) (at s == 34) _ _
      (λ _. >>=-Within behind behind (length s) (str s) _ (str-Within s) λ p _.
        >>=-Within all_of behind (length p.1)
          (if contains p.0 seen then refuse "duplicate_key" p.1 else expect b':' (skip_white p.1)) _
          (if-Within all_of (length p.1) (contains p.0 seen) _ _ (refl, omega arith)
            (Within-white all_of p.1 (expect b':' (skip_white p.1))
              (expect-Within b':' (skip_white p.1))))
          λ u _. length-skip_white u)
      (λ _. (refl, omega arith))

-- What walks over a value and stays within the buffer.
abbrev pub WalksWithin : (Bytes → Result Refusal Bytes) → Type 0
WalksWithin value = (s : Bytes) → Within all_of (length s) (value s)

items-Within :
    (n : ℕ) (value : Bytes → Result Refusal Bytes) (keyed : Bool) (seen : List Bytes) (s : Bytes)
    → WalksWithin value
    → length s < n
    → Within all_of (length s) (items n value keyed seen s)
unfolding items
items-Within zero value keyed seen s within fuel = absurd (omega (arith, fuel))
items-Within (suc n) value keyed seen s within fuel =
    >>=-Within behind all_of (length s) (item_key keyed seen (skip_white s)) _
      (Within-white behind s (item_key keyed seen (skip_white s))
        (item_key-Within keyed seen (skip_white s)))
      λ p named. >>=-Within all_of all_of (length p.1) (value p.1) _ (within p.1) λ u walked.
        let used : length p.1 ≤ length (skip_white s) =
          Within-ok behind (length (skip_white s)) (item_key-Within keyed seen (skip_white s))
            named in
        let left : length u ≤ length p.1 = Within-ok all_of (length p.1) (within p.1) walked in
        let spaces = length-skip_white u in
        elim-Within all_of (length u) (at (skip_white u) == 44) _ _
          (λ comma.
            let shorter = passes 44 (skip_white u) (omega arith) comma in
            Within-≤ all_of (items n value keyed p.0 (drop 1 (skip_white u)))
              (omega (arith, shorter, spaces))
              (items-Within n value keyed p.0 (drop 1 (skip_white u)) within
                (omega (arith, shorter, spaces, left, used, length-skip_white s, fuel))))
          (λ _. spaces)

contents-Within :
    (value : Bytes → Result Refusal Bytes) → WalksWithin value → WalksWithin (contents value)
unfolding contents
contents-Within value within s =
    let keyed = at s == b'{' in
    let shut = if keyed then b'}' else b']' in
    let t = skip_white (drop 1 s) in
    let first = if at t == shut then ok t else items (suc (length t)) value keyed [] t in
    >>=-Within all_of all_of (length s) first (expect shut)
      (Within-≤ all_of first (omega (arith, length-skip_white (drop 1 s), length-drop_one s)) (
        if-Within all_of (length t) (at t == shut) _ _ (omega arith)
          (items-Within (suc (length t)) value keyed [] t within (omega arith))))
      λ u _. expect-Within shut u

skip_switch-Within :
    (walk : Bytes → Result Refusal Bytes) → WalksWithin walk → WalksWithin (skip_switch walk)
unfolding skip_switch contains equal
skip_switch-Within walk within s =
    elim (sort_of (at s))
      as (λ k. Within all_of (length s) (elim k [
        | quoted_text ↦ skip_string s
        | container ↦ walk s
        | true_word ↦ literal (codes "true") s
        | false_word ↦ literal (codes "false") s
        | null_word ↦ literal (codes "null") s
        | number ↦ skip_number s
        | none_of_them ↦ refuse "malformed" s
      ])) [
        | quoted_text ↦ skip_string-Within s
        | container ↦ within s
        | true_word ↦ literal-Within (codes "true") s
        | false_word ↦ literal-Within (codes "false") s
        | null_word ↦ literal-Within (codes "null") s
        | number ↦ skip_number-Within s
        | none_of_them ↦ (refl, omega arith)
      ]

-- On every buffer and at every depth, skipValue stops: at a byte that is no further than the end, or
-- with one of the words.
pub skip_value-Within : (room : ℕ) (s : Bytes) → Within all_of (length s) (skip_value room s)
unfolding skip_value contains equal
skip_value-Within zero s = skip_switch-Within (refuse "depth_exceeded") (λ t. (refl, omega arith)) s
skip_value-Within (suc room) s =
    skip_switch-Within (contents (skip_value room))
      (contents-Within (skip_value room) (skip_value-Within room)) s

pub raw_value-Within : (room : ℕ) (s : Bytes) → Within behind (length s) (raw_value room s)
unfolding raw_value
raw_value-Within room s =
    >>=-Within all_of behind (length s) (skip_value room s) _ (skip_value-Within room s)
      λ u _. omega arith
