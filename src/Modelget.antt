-- ===== src/Modelget.antt =====
-- go/cmd/modelget/args.go, and the functions of go/cmd/modelget/main.go that name a file: the command
-- line of the program. Package flag is a parameter.
pub mod Accepts
pub mod Ends
mod Examples
use abstraction_model.Base.{
  Bool, Bytes, List, Option, Result, [], codes, equal, err, false, if◌then◌else◌, length, ltb, none,
  not, ok, some, suc, true, zero, ℕ, ◌&&◌, ◌++◌, ◌==◌, ◌>>=◌, ◌||◌, ◌∷◌,
}
use abstraction_model.Download.{Source, Spec}
use abstraction_model.Strings.{cut_last, has_prefix, has_suffix, trim_suffix}

-- What fs.Parse ends with: flag.ErrHelp, or another error by its text.
pub data FlagError : Type 0 where
  help_asked : FlagError
  bad_flag : Bytes → FlagError

-- A flag set: its state `S` after some arguments, fs.Parse with the arguments that it leaves (fs.Args),
-- and the names and values of the flags that were set, as fs.Visit goes over them.
pub record Flags (S : Type 0) : Type 0 where
  pub parse_flags : S → List Bytes → Result FlagError (S × List Bytes)
  pub visited : S → List (Bytes × Bytes)

-- The errors of parse, with what their messages quote.
pub data ArgError : Type 0 where
  of_flags : FlagError → ArgError
  empty_argument : ArgError
  needs : Bytes → ArgError
  not_known : Bytes → ArgError
  wants_value : Bytes → ArgError
  out_of_rounds : ArgError

abbrev pub flagged : {A : Type 0} → Result FlagError A → Result ArgError A
flagged (ok a) = ok a
flagged (err e) = err (of_flags e)

module _ {S : Type 0} (flags : Flags S) where
  -- The loop of parse, a round of which passes an argument at least.
  unfoldable pub gather : ℕ → S → List Bytes → List Bytes → Result ArgError (S × List Bytes)
  gather zero fs found args = err out_of_rounds
  gather (suc n) fs found args = do
    (next, left) ← flagged (flags.parse_flags fs args)
    elim left [
      | [] ↦ ok (next, found)
      | (a ∷ more) ↦ elim (equal a []) [
        | true ↦ err empty_argument
        | false ↦ gather n next (found ++ a ∷ []) more
      ]
    ]

-- The last flag that was set to nothing.
abbrev pub blank_of : Bytes → List (Bytes × Bytes) → Bytes
blank_of blank [] = blank
blank_of blank ((name, value) ∷ fs) = blank_of (if equal value [] then name else blank) fs

unfoldable pub takes_rest : List Bytes → Bool
takes_rest [] = false
takes_rest (w ∷ []) = has_suffix (codes "...") w
takes_rest (w ∷ (v ∷ ws)) = takes_rest (v ∷ ws)

-- `s[n]`, where it is there.
abbrev pub item_at : List Bytes → ℕ → Bytes
item_at [] n = []
item_at (s ∷ ss) zero = s
item_at (s ∷ ss) (suc n) = item_at ss n

unfoldable pub counted : List Bytes → List Bytes → Result ArgError (List Bytes)
counted want found =
    if ltb (length found) (length want)
    then err (needs (trim_suffix (codes "...") (item_at want (length found))))
    else if ltb (length want) (length found) && not (takes_rest want)
    then err (not_known (item_at found (length want)))
    else ok found

abbrev pub unless_blank : Bytes → List Bytes → Result ArgError (List Bytes)
unless_blank [] found = ok found
unless_blank (c ∷ name) found = err (wants_value (c ∷ name))

module _ {S : Type 0} (flags : Flags S) where
  unfoldable pub parse : S → List Bytes → List Bytes → Result ArgError (List Bytes)
  parse fs args want = do
    (last, found) ← gather flags (suc (length args)) fs [] args
    all ← counted want found
    unless_blank (blank_of [] (flags.visited last)) all

  -- need: the positional arguments, or the status that the process ends with.
  unfoldable pub need : S → List Bytes → List Bytes → Result ℕ (List Bytes)
  need fs args want = elim (parse fs args want) [
    | ok found ↦ ok found
    | err e ↦ elim e [ of_flags f ↦ elim f [ help_asked ↦ err 0 | bad_flag _ ↦ err 2 ] | _ ↦ err 2 ]
  ]

-- status, from what errors.Is and download.Permanent say of an error.
abbrev pub status_of : Bool → Bool → ℕ
status_of true permanent = 4
status_of false true = 3
status_of false false = 1

unfoldable pub status : {E : Type 0} → (E → Bool) → (E → Bool) → Option E → ℕ
status is_unknown is_permanent none = 0
status is_unknown is_permanent (some e) = status_of (is_unknown e) (is_permanent e)

-- The replacer of filenameFor: its pairs are tried in order at each place, and a replaced text is
-- passed; `k` is how many bytes of it are still to pass.
abbrev pub dashed : ℕ → ℕ
dashed c = if c == b'/' || c == b':' || c == b'#' || c == b'@' then b'-' else c

unfoldable pub replaced : ℕ → Bytes → Bytes
replaced k [] = []
replaced (suc k) (c ∷ s) = replaced k s
replaced zero (c ∷ s) = elim (has_prefix (codes "hf://") (c ∷ s)) [
  | true ↦ replaced 4 s
  | false ↦ elim (has_prefix (codes "ollama://") (c ∷ s)) [
    | true ↦ replaced 8 s
    | false ↦ dashed c ∷ replaced 0 s
  ]
]

abbrev pub is_web : Source → Bool
is_web s = equal s.scheme (codes "https") || equal s.scheme (codes "http")

-- The loop over the sources: the first web source with a slash in its locator.
unfoldable pub web_name : List Source → Option Bytes
web_name [] = none
web_name (s ∷ ss) = elim (is_web s) [
  | true ↦ elim (cut_last b'/' s.locator) [ some (before, after) ↦ some after | none ↦ web_name ss ]
  | false ↦ web_name ss
]

unfoldable pub filename_for : Bytes → Spec → Bytes
filename_for ref spec = elim (web_name spec.sources) [
  | some name ↦ name
  | none ↦ replaced 0 ref ++ codes ".gguf"
]

-- isDirPath; os.Stat is a parameter.
unfoldable pub is_dir_path : (Bytes → Option Bool) → Bytes → Bool
is_dir_path stat p =
    has_suffix (codes "/") p
    || has_suffix (92 ∷ []) p
    || equal p (codes ".")
    || equal p (codes "..")
    || elim (stat p) [ none ↦ false | some is_dir ↦ is_dir ]
