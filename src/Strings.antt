-- ===== src/Strings.antt =====
-- The functions of Go's package strings that the program calls, on byte strings. Case and white
-- space are the ASCII ones, as Go has them on ASCII text; a byte from 0x80 on is left alone.
pub mod Fields
pub mod Case
pub mod Cut
pub mod Trim
use abstraction_model.Base.{
  Bool, Bytes, List, Option, [], equal, false, if◌then◌else◌, is_some, leb, length, map, none, some,
  suc, zero, ℕ, ◌&&◌, ◌++◌, ◌+◌, ◌-◌, ◌==◌, ◌||◌, ◌∷◌,
}

-- CutPrefix(s, pre).
unfoldable pub cut_prefix : Bytes → Bytes → Option Bytes
cut_prefix [] s = some s
cut_prefix (p ∷ pre) [] = none
cut_prefix (p ∷ pre) (c ∷ s) = if p == c then cut_prefix pre s else none

unfoldable pub has_prefix : Bytes → Bytes → Bool
unfolding cut_prefix
has_prefix pre s = is_some (cut_prefix pre s)

-- TrimPrefix(s, pre).
unfoldable pub trim_prefix : Bytes → Bytes → Bytes
unfolding cut_prefix
trim_prefix pre s = elim (cut_prefix pre s) [ none ↦ s | some rest ↦ rest ]

unfoldable pub has_suffix : Bytes → Bytes → Bool
has_suffix suf [] = equal suf []
has_suffix suf (c ∷ s) = equal suf (c ∷ s) || has_suffix suf s

-- TrimSuffix(s, suf): the tail of `s` that equals `suf` is left out.
unfoldable pub trim_suffix : Bytes → Bytes → Bytes
trim_suffix suf [] = []
trim_suffix suf (c ∷ s) = if equal suf (c ∷ s) then [] else c ∷ trim_suffix suf s

abbrev pub put_first : ℕ → Option (Bytes × Bytes) → Option (Bytes × Bytes)
put_first c none = none
put_first c (some (a, b)) = some (c ∷ a, b)

abbrev pub cut_here : Option Bytes → Option (Bytes × Bytes) → Option (Bytes × Bytes)
cut_here none later = later
cut_here (some rest) later = some ([], rest)

-- What stands before and behind the first `sep` in `s`: Cut, and Index with the two slices.
unfoldable pub cut : Bytes → Bytes → Option (Bytes × Bytes)
unfolding cut_prefix
cut sep [] = if equal sep [] then some ([], []) else none
cut sep (c ∷ s) = cut_here (cut_prefix sep (c ∷ s)) (put_first c (cut sep s))

-- Contains(s, sub).
unfoldable pub has : Bytes → Bytes → Bool
unfolding cut
has sub s = is_some (cut sub s)

-- IndexByte with the two slices.
unfoldable pub cut_byte : ℕ → Bytes → Option (Bytes × Bytes)
cut_byte b [] = none
cut_byte b (c ∷ s) = if c == b then some ([], s) else put_first c (cut_byte b s)

abbrev pub or_whole : Bytes → Option (Bytes × Bytes) → Bytes × Bytes
or_whole s none = (s, [])
or_whole s (some p) = p

-- The two slices at the first `b`; the whole text and an empty one where there is none.
unfoldable pub cut_at : ℕ → Bytes → Bytes × Bytes
cut_at b s = or_whole s (cut_byte b s)

-- LastIndexByte with the two slices.
unfoldable pub cut_last : ℕ → Bytes → Option (Bytes × Bytes)
cut_last b [] = none
cut_last b (c ∷ s) = elim (cut_last b s) [
  | some (x, y) ↦ some (c ∷ x, y)
  | none ↦ if c == b then some ([], s) else none
]

-- ContainsRune of an ASCII rune, ContainsAny of a list of ASCII characters.
unfoldable pub has_any : Bytes → Bytes → Bool
has_any set [] = false
has_any set (c ∷ s) = is_some (cut_byte c set) || has_any set s

-- Count of a single byte.
unfoldable pub count : ℕ → Bytes → ℕ
count b [] = 0
count b (c ∷ s) = (if c == b then 1 else 0) + count b s

abbrev pub add_first : ℕ → List Bytes → List Bytes
add_first c [] = (c ∷ []) ∷ []
add_first c (p ∷ ps) = (c ∷ p) ∷ ps

-- Split at every byte of which the test holds; Split of a single byte.
unfoldable pub split_by : (ℕ → Bool) → Bytes → List Bytes
split_by test [] = [] ∷ []
split_by test (c ∷ s) = let rest = split_by test s in if test c then [] ∷ rest else add_first c rest

unfoldable pub split : ℕ → Bytes → List Bytes
unfolding split_by
split sep = split_by (λ c. c == sep)

unfoldable pub drop_empty : List Bytes → List Bytes
drop_empty [] = []
drop_empty ([] ∷ ps) = drop_empty ps
drop_empty ((c ∷ p) ∷ ps) = (c ∷ p) ∷ drop_empty ps

-- FieldsFunc.
unfoldable pub fields : (ℕ → Bool) → Bytes → List Bytes
unfolding split_by drop_empty
fields test s = drop_empty (split_by test s)

-- Join(parts, sep).
unfoldable pub join : Bytes → List Bytes → Bytes
join sep [] = []
join sep (p ∷ []) = p
join sep (p ∷ (q ∷ ps)) = p ++ (sep ++ join sep (q ∷ ps))

-- ReplaceAll(s, old, new) for a nonempty `old`; the number is what is left of a match to skip.
replace_from : Bytes → Bytes → ℕ → Bytes → Bytes
replace_from old new k [] = []
replace_from old new (suc k) (c ∷ s) = replace_from old new k s
replace_from old new zero (c ∷ s) =
    let rest = replace_from old new (if has_prefix old (c ∷ s) then length old - 1 else 0) s in
    if has_prefix old (c ∷ s) then new ++ rest else c ∷ rest

unfoldable pub replace_all : Bytes → Bytes → Bytes → Bytes
unfolding replace_from has_prefix
replace_all old new s = replace_from old new 0 s

unfoldable pub lower_byte : ℕ → ℕ
lower_byte c = if leb b'A' c && leb c b'Z' then c + 32 else c

unfoldable pub upper_byte : ℕ → ℕ
upper_byte c = if leb b'a' c && leb c b'z' then c - 32 else c

unfoldable pub to_lower : Bytes → Bytes
unfolding lower_byte
to_lower = map lower_byte

unfoldable pub to_upper : Bytes → Bytes
unfolding upper_byte
to_upper = map upper_byte

unfoldable pub equal_fold : Bytes → Bytes → Bool
unfolding to_lower
equal_fold a b = equal (to_lower a) (to_lower b)

-- Tab, line feed, vertical tab, form feed, carriage return and space.
unfoldable pub is_space : ℕ → Bool
is_space c = (leb 9 c && leb c 13) || c == b' '

unfoldable pub trim_left : (ℕ → Bool) → Bytes → Bytes
trim_left test [] = []
trim_left test (c ∷ s) = if test c then trim_left test s else c ∷ s

-- What is left of a suffix in which a byte has to stay.
abbrev pub keep_first : (ℕ → Bool) → ℕ → Bytes → Bytes
keep_first test c [] = if test c then [] else c ∷ []
keep_first test c (d ∷ s) = c ∷ d ∷ s

unfoldable pub trim_right : (ℕ → Bool) → Bytes → Bytes
trim_right test [] = []
trim_right test (c ∷ s) = keep_first test c (trim_right test s)

-- TrimFunc; Trim with the set's test.
unfoldable pub trim : (ℕ → Bool) → Bytes → Bytes
unfolding trim_left trim_right
trim test s = trim_right test (trim_left test s)

unfoldable pub trim_space : Bytes → Bytes
unfolding trim is_space
trim_space = trim is_space
