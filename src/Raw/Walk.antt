-- ===== src/Raw/Walk.antt =====
-- What the reader walks over is what the writer of objects writes: the opaque value that a frame
-- carries comes back as it was spelt.
use mathlib.Core.Path.{ap, ◌∙◌}
use abstraction_model.Base.{
  >>=-ok, Bytes, List, Result, [], ap, append_assoc, arith, contains, drop, false, if◌then◌else◌,
  length, length-append, ok, refl, suc, take, true, zero, ℕ, ◌++◌, ◌-◌, ◌<◌, ◌==◌, ◌>>=◌, ◌∙◌, ◌∷◌,
  ◌≡◌,
}
use abstraction_model.Codec.{Refusal, at, esc, skip_white, valid_utf8}
use abstraction_model.Codec.RoundTrip.{str-esc}
use abstraction_model.Record.{expect, line, lines, more_lines, object}
use abstraction_model.Record.RoundTrip.{
  Stops, closed, comma, length-more_lines, newline, object_text, skip_white-closed, skip_white-esc,
  skip_white-member,
}
use abstraction_model.Raw.{
  contents, item_key, items, raw_value, skip_string, skip_switch, skip_value, sort_of,
}

-- Members with new keys and with values that `value` walks over.
pub data Walks (value : Bytes → Result Refusal Bytes)
    : List Bytes → List (Bytes × Bytes) → Type 0 where
  ended : (seen : List Bytes) → Walks value seen []
  item :
      {seen : List Bytes} (name text : Bytes) {ms : List (Bytes × Bytes)}
      → valid_utf8 name ≡ true
      → contains name seen ≡ false
      → ((rest : Bytes) → Stops rest → value (skip_white (32 ∷ (text ++ rest))) ≡ ok rest)
      → Walks value (name ∷ seen) ms
      → Walks value seen ((name, text) ∷ ms)

item_key-esc :
    (seen : List Bytes) (name rest : Bytes)
    → valid_utf8 name ≡ true
    → contains name seen ≡ false
    → item_key true seen (esc name ++ 58 ∷ 32 ∷ rest) ≡ ok (name ∷ seen, skip_white (32 ∷ rest))
unfolding item_key at esc expect skip_white
item_key-esc seen name rest good new = >>=-ok _ (str-esc name (58 ∷ 32 ∷ rest) good) ∙ rw new refl

module _ (value : Bytes → Result Refusal Bytes) where
  abbrev go_on : ℕ → List Bytes → Bytes → Result Refusal Bytes
  go_on n names t = elim (at t == 44) [ true ↦ items n value true names (drop 1 t) | false ↦ ok t ]

  items-item :
      (n : ℕ) (seen : List Bytes) (name text rest s : Bytes)
      → item_key true seen (skip_white s) ≡ ok (name ∷ seen, skip_white (32 ∷ (text ++ rest)))
      → value (skip_white (32 ∷ (text ++ rest))) ≡ ok rest
      → items (suc n) value true seen s ≡ go_on n (name ∷ seen) (skip_white rest)
  unfolding items
  items-item n seen name text rest s keyed walked = >>=-ok _ keyed ∙ >>=-ok _ walked

  items-lines :
      (n d e : ℕ) (seen : List Bytes) (name text : Bytes) (ms : List (Bytes × Bytes))
      (rest s : Bytes)
      → Walks value seen ((name, text) ∷ ms)
      → item_key true seen (skip_white s)
        ≡ ok (name ∷ seen, skip_white (32 ∷ (text ++ (more_lines d ms ++ closed e rest))))
      → length ms < n
      → items n value true seen s ≡ ok (b'}' ∷ rest)
  unfolding more_lines at skip_white
  items-lines zero d e seen name text ms rest s run keyed fuel = absurd (omega (arith, fuel))
  items-lines (suc n) d e seen name text [] rest s (item _ _ good new walked (ended _)) keyed fuel =
      items-item n seen name text (closed e rest) s keyed (walked _ (newline _))
      ∙ ap (go_on n _) (skip_white-closed e rest)
  items-lines (suc n) d e seen name text ((name', text') ∷ ms) rest s
        (item _ _ good new walked (item _ _ good' new' walked' run)) keyed fuel =
      items-item n seen name text
        (44 ∷ ((line d (name', text') ++ more_lines d ms) ++ closed e rest)) s keyed
        (walked _ (comma _))
      ∙ items-lines n d e (name ∷ seen) name' text' ms rest _ (item _ _ good' new' walked' run)
          (ap (λ t. item_key true (name ∷ seen) (skip_white t))
              (append_assoc (line d (name', text')) (more_lines d ms) (closed e rest))
            ∙ ap (item_key true (name ∷ seen))
                (skip_white-member d name' text' (more_lines d ms ++ closed e rest))
            ∙ item_key-esc (name ∷ seen) name' (text' ++ (more_lines d ms ++ closed e rest)) good'
                new')
          (omega (arith, fuel))

  contents-lines :
      (d e : ℕ) (name text : Bytes) (ms : List (Bytes × Bytes)) (rest s : Bytes)
      → Walks value [] ((name, text) ∷ ms)
      → skip_white s ≡ esc name ++ 58 ∷ 32 ∷ (text ++ (more_lines d ms ++ closed e rest))
      → contents value (b'{' ∷ s) ≡ ok rest
  unfolding contents at esc expect skip_white
  contents-lines d e name text ms rest s (item _ _ good new walked run) spelt =
      let tail = more_lines d ms ++ closed e rest in
      let whole = esc name ++ 58 ∷ 32 ∷ (text ++ tail) in
      let read : items (suc (length whole)) value true [] whole ≡ ok (b'}' ∷ rest) =
        items-lines (suc (length whole)) d e [] name text ms rest whole
          (item _ _ good new walked run)
          (ap (item_key true []) (skip_white-esc name (58 ∷ 32 ∷ (text ++ tail)))
            ∙ item_key-esc [] name (text ++ tail) good new)
          (omega (
            arith,
            length-append (esc name) (58 ∷ 32 ∷ (text ++ tail)),
            length-append text tail,
            length-append (more_lines d ms) (closed e rest),
            length-more_lines d ms,
          )) in
      ap
        (λ t.
          (if at t == b'}' then ok t else items (suc (length t)) value true [] t) >>= expect b'}')
        spelt
      ∙ >>=-ok (expect b'}') read

-- An object that was written member by member is walked over to its closing brace.
pub skip_value-object :
    (room d : ℕ) (name text : Bytes) (ms : List (Bytes × Bytes)) (rest : Bytes)
    → Walks (skip_value room) [] ((name, text) ∷ ms)
    → skip_value (suc room) (object d ((name, text) ∷ ms) ++ rest) ≡ ok rest
unfolding skip_value skip_switch object lines sort_of at
skip_value-object room d name text ms rest run =
    contents-lines (skip_value room) (suc d) d name text ms rest _ run (
      ap skip_white (object_text (suc d) d (name, text) ms rest)
      ∙ skip_white-member (suc d) name text (more_lines (suc d) ms ++ closed d rest))

-- A string that was written is walked over.
pub skip_value-esc :
    (room : ℕ) (word rest : Bytes)
    → valid_utf8 word ≡ true
    → skip_value room (esc word ++ rest) ≡ ok rest
unfolding skip_value skip_switch skip_string esc sort_of at
skip_value-esc zero word rest good = >>=-ok _ (str-esc word rest good)
skip_value-esc (suc room) word rest good = >>=-ok _ (str-esc word rest good)

take-length : (s rest : Bytes) → take (length s) (s ++ rest) ≡ s
take-length [] rest = refl
take-length (c ∷ s) rest = ap (◌∷◌ c) (take-length s rest)

-- What is walked over is kept byte for byte.
pub raw_value-append :
    (room : ℕ) (raw rest : Bytes)
    → skip_value room (raw ++ rest) ≡ ok rest
    → raw_value room (raw ++ rest) ≡ ok (raw, rest)
unfolding raw_value
raw_value-append room raw rest walked =
    let size : length (raw ++ rest) - length rest ≡ length raw =
      omega (arith, length-append raw rest) in
    >>=-ok _ walked
    ∙ ap (λ t. ok (t, rest)) (ap (λ n. take n (raw ++ rest)) size ∙ take-length raw rest)
