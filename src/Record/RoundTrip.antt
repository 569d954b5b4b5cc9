-- ===== src/Record/RoundTrip.antt =====
-- What the reader of objects makes of what the writer of objects writes.
use abstraction_model.Base.{
  >>=-ok, Bytes, List, Result, [], ap, append_assoc, arith, contains, drop, false, length,
  length-append, ok, refl, suc, true, zero, ℕ, ◌++◌, ◌<◌, ◌==◌, ◌∙◌, ◌∷◌, ◌≡◌, ◌≤◌,
}
use abstraction_model.Codec.RoundTrip.{str-esc}
use abstraction_model.Codec.{Refusal, at, esc, skip_white, valid_utf8}
use abstraction_model.Record.{
  Setter, all_seen, body, enter, expect, key, line, lines, members, more_lines, object, once, pad,
  read_object,
}

-- What may stand behind a member's value: the comma, or the line of the closing brace.
pub data Stops : Bytes → Type 0 where
  comma : (s : Bytes) → Stops (44 ∷ s)
  newline : (s : Bytes) → Stops (10 ∷ s)

skip_white-pad : (n : ℕ) (s : Bytes) → skip_white (pad n ++ s) ≡ skip_white s
unfolding skip_white pad
skip_white-pad zero s = refl
skip_white-pad (suc n) s = rw (skip_white, skip_white-pad n s) refl

pub skip_white-line : (d : ℕ) (s : Bytes) → skip_white (10 ∷ (pad d ++ s)) ≡ skip_white s
unfolding skip_white
skip_white-line d s = skip_white-pad d s

pub skip_white-esc : (s rest : Bytes) → skip_white (esc s ++ rest) ≡ esc s ++ rest
unfolding skip_white esc
skip_white-esc s rest = refl

pub key-esc :
    (name rest : Bytes)
    → valid_utf8 name ≡ true
    → key (esc name ++ 58 ∷ 32 ∷ rest) ≡ ok (name, skip_white rest)
unfolding key at esc expect skip_white
key-esc name rest h = >>=-ok _ (str-esc name (58 ∷ 32 ∷ rest) h)

pub skip_white-member :
    (d : ℕ) (name value rest : Bytes)
    → skip_white (line d (name, value) ++ rest) ≡ esc name ++ 58 ∷ 32 ∷ (value ++ rest)
unfolding line skip_white
skip_white-member d name value rest =
    ap (λ s. skip_white (10 ∷ s))
      (append_assoc (pad d) (esc name ++ 58 ∷ 32 ∷ value) rest
        ∙ ap (◌++◌ (pad d)) (append_assoc (esc name) (58 ∷ 32 ∷ value) rest))
    ∙ skip_white-line d (esc name ++ 58 ∷ 32 ∷ (value ++ rest))
    ∙ skip_white-esc name (58 ∷ 32 ∷ (value ++ rest))

key-line :
    (d : ℕ) (name value rest : Bytes)
    → valid_utf8 name ≡ true
    → key (skip_white (line d (name, value) ++ rest)) ≡ ok (name, skip_white (32 ∷ (value ++ rest)))
unfolding skip_white
key-line d name value rest good =
    ap key (skip_white-member d name value rest) ∙ key-esc name (value ++ rest) good

pub length-more_lines : (d : ℕ) (ms : List (Bytes × Bytes)) → length ms ≤ length (more_lines d ms)
unfolding more_lines
length-more_lines d [] = omega arith
length-more_lines d (m ∷ ms) =
    omega (arith, length-more_lines d ms, length-append (line d m) (more_lines d ms))

-- What stands behind the last member: the closing brace on its own line.
abbrev pub closed : ℕ → Bytes → Bytes
closed d rest = 10 ∷ (pad d ++ b'}' ∷ rest)

pub skip_white-closed : (d : ℕ) (rest : Bytes) → skip_white (closed d rest) ≡ b'}' ∷ rest
unfolding skip_white
skip_white-closed d rest = skip_white-line d (b'}' ∷ rest)

pub object_text :
    (d e : ℕ) (m : Bytes × Bytes) (ms : List (Bytes × Bytes)) (rest : Bytes)
    → line d m ++ more_lines d ms ++ 10 ∷ (pad e ++ b'}' ∷ []) ++ rest
      ≡ line d m ++ (more_lines d ms ++ closed e rest)
object_text d e m ms rest =
    append_assoc (line d m ++ more_lines d ms) (10 ∷ (pad e ++ b'}' ∷ [])) rest
    ∙ append_assoc (line d m) (more_lines d ms) (10 ∷ (pad e ++ b'}' ∷ []) ++ rest)
    ∙ ap (λ t. line d m ++ (more_lines d ms ++ 10 ∷ t)) (append_assoc (pad e) (b'}' ∷ []) rest)

module _ {V : Type 0} where
  -- A run of the setter over written members, from the record and the keys read so far on.
  pub data Reads (set : Setter V)
      : List Bytes → V → List (Bytes × Bytes) → List Bytes → V → Type 0 where
    last : (seen : List Bytes) (v : V) → Reads set seen v [] seen v
    member :
        {seen all : List Bytes} (name value : Bytes) {ms : List (Bytes × Bytes)} {u v w : V}
        → valid_utf8 name ≡ true
        → contains name seen ≡ false
        → ((rest : Bytes)
            → Stops rest
            → set name v (skip_white (32 ∷ (value ++ rest))) ≡ ok (u, rest))
        → Reads set (name ∷ seen) u ms all w
        → Reads set seen v ((name, value) ∷ ms) all w

  -- What the loop does behind a member, from the first byte that is not white.
  abbrev go_on : ℕ → Setter V → List Bytes → V → Bytes → Result Refusal ((List Bytes × V) × Bytes)
  go_on n set seen v t = elim (at t == 44) [
    | true ↦ members n set seen v (drop 1 t)
    | false ↦ ok ((seen, v), t)
  ]

  -- One round of the loop, at any spelling of the member.
  members-member :
      (n : ℕ) (set : Setter V) (seen : List Bytes) (name value rest s : Bytes) {u : V} (v : V)
      → key (skip_white s) ≡ ok (name, skip_white (32 ∷ (value ++ rest)))
      → contains name seen ≡ false
      → set name v (skip_white (32 ∷ (value ++ rest))) ≡ ok (u, rest)
      → members (suc n) set seen v s ≡ go_on n set (name ∷ seen) u (skip_white rest)
  unfolding members
  members-member n set seen name value rest s v keyed new reads =
      let stored : once set seen name v (skip_white (32 ∷ (value ++ rest))) ≡ ok (_, rest) =
        rw new reads in
      >>=-ok _ keyed ∙ >>=-ok _ stored

  -- The whole loop, at any spelling of the first member.
  members-lines :
      (n d e : ℕ) (set : Setter V) {seen all : List Bytes} {v w : V} (name value : Bytes)
      (ms : List (Bytes × Bytes)) (rest s : Bytes)
      → Reads set seen v ((name, value) ∷ ms) all w
      → key (skip_white s)
        ≡ ok (name, skip_white (32 ∷ (value ++ (more_lines d ms ++ closed e rest))))
      → length ms < n
      → members n set seen v s ≡ ok ((all, w), b'}' ∷ rest)
  unfolding more_lines at skip_white
  members-lines zero d e set name value ms rest s run keyed fuel = absurd (omega (arith, fuel))
  members-lines (suc n) d e set {seen} {v} name value [] rest s
        (member _ _ good new reads (last _ _)) keyed fuel =
      members-member n set seen name value (closed e rest) s v keyed new (reads _ (newline _))
      ∙ ap (go_on n set _ _) (skip_white-closed e rest)
  members-lines (suc n) d e set {seen} {v} name value ((name', value') ∷ ms) rest s
        (member _ _ good new reads (member _ _ good' new' reads' run)) keyed fuel =
      members-member n set seen name value
        (44 ∷ ((line d (name', value') ++ more_lines d ms) ++ closed e rest)) s v keyed new
        (reads _ (comma _))
      ∙ members-lines n d e set name' value' ms rest _ (member _ _ good' new' reads' run)
          (ap (λ t. key (skip_white t))
              (append_assoc (line d (name', value')) (more_lines d ms) (closed e rest))
            ∙ key-line d name' value' (more_lines d ms ++ closed e rest) good')
          (omega (arith, fuel))

  -- The loop is given fuel enough: one byte for each member at least.
  body-lines :
      (d e : ℕ) (set : Setter V) {empty w : V} {all : List Bytes} {name value : Bytes}
      (ms : List (Bytes × Bytes)) (rest : Bytes)
      → valid_utf8 name ≡ true
      → Reads set [] empty ((name, value) ∷ ms) all w
      → body set empty (esc name ++ 58 ∷ 32 ∷ (value ++ (more_lines d ms ++ closed e rest)))
        ≡ ok ((all, w), b'}' ∷ rest)
  unfolding body at esc skip_white
  body-lines d e set {name} {value} ms rest good run =
      let tail = more_lines d ms ++ closed e rest in
      let text = esc name ++ 58 ∷ 32 ∷ (value ++ tail) in
      members-lines (suc (length text)) d e set name value ms rest text run
        (ap key (skip_white-esc name (58 ∷ 32 ∷ (value ++ tail)))
          ∙ key-esc name (value ++ tail) good)
        (omega (
          arith,
          length-append (esc name) (58 ∷ 32 ∷ (value ++ tail)),
          length-append value tail,
          length-append (more_lines d ms) (closed e rest),
          length-more_lines d ms,
        ))

  -- An object that was written member by member is read member by member: the same record comes
  -- back, and the reader stops behind the closing brace.
  pub read_object-object :
      (set : ℕ → Setter V) {empty w : V} (required : List Bytes) (room d : ℕ) {all : List Bytes}
      (name value : Bytes) (ms : List (Bytes × Bytes)) (rest : Bytes)
      → valid_utf8 name ≡ true
      → Reads (set room) [] empty ((name, value) ∷ ms) all w
      → all_seen required all ≡ true
      → read_object set empty required (suc room) (object d ((name, value) ∷ ms) ++ rest)
        ≡ ok (w, rest)
  unfolding read_object object at enter body lines expect
  read_object-object set {empty} {w} required room d {all} name value ms rest good run complete =
      let text : skip_white _
          ≡ esc name ++ 58 ∷ 32 ∷ (value ++ (more_lines (suc d) ms ++ closed d rest)) =
        ap skip_white (object_text (suc d) d (name, value) ms rest)
        ∙ skip_white-member (suc d) name value (more_lines (suc d) ms ++ closed d rest) in
      let read : body (set room) empty (skip_white _) ≡ ok ((all, w), b'}' ∷ rest) =
        ap (body (set room) empty) text ∙ body-lines (suc d) d (set room) ms rest good run in
      >>=-ok _ read ∙ rw complete
