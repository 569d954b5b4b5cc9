-- ===== src/Message/Results/RoundTrip.antt =====
-- The results of the two services are read back from what their writers write.
use mathlib.Core.Path.{subst, ap, ◌∙◌}
use abstraction_model.Base.{
  >>=-eq-ok, >>=-ok, Bytes, List, Option, [], ap, arith, codes, contains, equal, none, ok, refl,
  some, suc, true, ℕ, ◌++◌, ◌∙◌, ◌∷◌, ◌≡◌,
}
use abstraction_model.Message.Frames.{IsRaw}
use abstraction_model.Raw.Walk.{ended, item, skip_value-esc, skip_value-object}
use abstraction_model.Codec.{esc, lead, skip_white, valid_loop, valid_utf8}
use abstraction_model.Codec.RoundTrip.{str-esc}
use abstraction_model.Record.{all_seen, object}
use abstraction_model.Record.RoundTrip.{last, member, read_object-object}
use abstraction_model.Raw.{skip_value}
use abstraction_model.Vocabulary.{lookup_name, named, parse_lookup}
use abstraction_model.Message.Results.{
  Imported, WireLookup, decode_lookup, decode_lookup_result, enc_imported, enc_lookup,
  enc_lookup_result, imported_field, outcome_field, set_lookup, set_lookup_result,
}
use abstraction_model.Vocabulary.Json.{Names, lookup_name-some}

pub named-ok : (o : Option Bytes) (word : Bytes) → named o ≡ ok word → o ≡ some word
named-ok none word same = absurd (ground arith)
named-ok (some w) word same = cc

pub outcome_field-esc :
    {V : Type 0} (parse : Bytes → Option ℕ) (store : ℕ → V) (o : ℕ) (word rest : Bytes)
    → Names parse o word
    → outcome_field parse store (skip_white (32 ∷ (esc word ++ rest))) ≡ ok (store o, rest)
unfolding skip_white esc
outcome_field-esc parse store o word rest (parsed, good) =
    >>=-ok _ (str-esc word rest good) ∙ rw parsed refl

module _ {Q : Type 0} (codec : Imported Q) where
  -- What is asked of the other package's codec: where `room` containers may still be opened, its reader
  -- reads back what its writer writes, which is one value that starts with no white space.
  abbrev pub IsInverse : ℕ → Type 0
  IsInverse room =
      (q : Q) (depth : ℕ) (text rest : Bytes)
      → codec.encode q depth ≡ ok text
      → (codec.decode room (text ++ rest) ≡ ok (q, rest))
        × (skip_value room (text ++ rest) ≡ ok rest)
        × (skip_white (text ++ rest) ≡ text ++ rest)

  pub imported_field-IsInverse :
      {V : Type 0} (store : Q → V) (room : ℕ) (q : Q) (depth : ℕ) (text rest : Bytes)
      → IsInverse room
      → codec.encode q depth ≡ ok text
      → imported_field codec store room (skip_white (32 ∷ (text ++ rest))) ≡ ok (store q, rest)
  unfolding skip_white
  imported_field-IsInverse store room q depth text rest inverse written =
      let (read, _, solid) = inverse q depth text rest written in
      ap (imported_field codec store room) solid ∙ >>=-ok _ read

  pub imported-IsRaw :
      (room : ℕ) (q : Q) (depth : ℕ) (text rest : Bytes)
      → IsInverse room
      → codec.encode q depth ≡ ok text
      → skip_value room (skip_white (32 ∷ (text ++ rest))) ≡ ok rest
  unfolding skip_white
  imported-IsRaw room q depth text rest inverse written =
      let (_, walked, solid) = inverse q depth text rest written in
      ap (skip_value room) solid ∙ walked

  decode_lookup-object :
      (room d o : ℕ) (word rest : Bytes) (request : Option Q) (part : List (Bytes × Bytes))
      → IsInverse room
      → lookup_name o ≡ some word
      → enc_imported codec (codes "request") request (suc d) ≡ ok part
      → decode_lookup codec (suc room) (object d ((codes "outcome", esc word) ∷ part) ++ rest)
        ≡ ok (record { outcome = o; request = request }, rest)
  unfolding decode_lookup set_lookup equal contains all_seen valid_utf8 valid_loop lead enc_imported
  decode_lookup-object room d o word rest none [] inverse called written =
      let names = lookup_name-some o word called in
      >>=-ok _ (
        read_object-object (set_lookup codec) _ room d (codes "outcome") (esc word) [] rest refl
          (member (codes "outcome") (esc word) refl refl
            (λ rest _. outcome_field-esc parse_lookup _ o word rest names) (last _ _))
          refl)
      ∙ rw called refl
  decode_lookup-object room d o word rest none (m ∷ ms) inverse called written =
      absurd (ground arith)
  decode_lookup-object room d o word rest (some q) part inverse called written =
      let names = lookup_name-some o word called in
      let (text, encoded, same) = >>=-eq-ok _ _ written in
      let parts : (codes "request", text) ∷ [] ≡ part = cc in
      subst
        (λ p.
          decode_lookup codec (suc room) (object d ((codes "outcome", esc word) ∷ p) ++ rest)
          ≡ ok (record { outcome = o; request = some q }, rest))
        parts
        (>>=-ok _ (
            read_object-object (set_lookup codec) _ room d (codes "outcome") (esc word) _ rest refl
              (member (codes "outcome") (esc word) refl refl
                (λ rest _. outcome_field-esc parse_lookup _ o word rest names)
                (member (codes "request") text refl refl
                  (λ rest _. imported_field-IsInverse _ room q (suc d) text rest inverse encoded)
                  (last _ _)))
              refl)
          ∙ rw called refl)

  skip_value-lookup :
      (room d : ℕ) (word rest : Bytes) (request : Option Q) (part : List (Bytes × Bytes))
      → IsInverse room
      → valid_utf8 word ≡ true
      → enc_imported codec (codes "request") request (suc d) ≡ ok part
      → skip_value (suc room) (object d ((codes "outcome", esc word) ∷ part) ++ rest) ≡ ok rest
  unfolding enc_imported equal contains valid_utf8 valid_loop lead skip_white esc
  skip_value-lookup room d word rest none [] inverse good written =
      skip_value-object room d (codes "outcome") (esc word) [] rest (
        item (codes "outcome") (esc word) refl refl (λ rest _. skip_value-esc room word rest good)
          (ended _))
  skip_value-lookup room d word rest none (m ∷ ms) inverse good written = absurd (ground arith)
  skip_value-lookup room d word rest (some q) part inverse good written =
      let (text, encoded, same) = >>=-eq-ok _ _ written in
      let parts : (codes "request", text) ∷ [] ≡ part = cc in
      subst
        (λ p. skip_value (suc room) (object d ((codes "outcome", esc word) ∷ p) ++ rest) ≡ ok rest)
        parts
        (skip_value-object room d (codes "outcome") (esc word) _ rest (
          item (codes "outcome") (esc word) refl refl (λ rest _. skip_value-esc room word rest good)
            (item (codes "request") text refl refl
              (λ rest _. imported-IsRaw room q (suc d) text rest inverse encoded) (ended _))))

  enc_lookup-ok :
      (v : WireLookup Q) (d : ℕ) {text : Bytes}
      → enc_lookup codec v d ≡ ok text
      → (word : Bytes) × (part : List (Bytes × Bytes)) × (lookup_name v.outcome ≡ some word)
        × (enc_imported codec (codes "request") v.request (suc d) ≡ ok part)
        × (object d ((codes "outcome", esc word) ∷ part) ≡ text)
  unfolding enc_lookup
  enc_lookup-ok v d written =
      let (word, called, more₁) = >>=-eq-ok _ _ written in
      let (part, encoded, same) = >>=-eq-ok _ _ more₁ in
      (word, part, named-ok (lookup_name v.outcome) word called, encoded, cc)

  -- A lookup's result that is written is read back, with the request that it carries.
  pub decode_lookup-enc_lookup :
      (v : WireLookup Q) (room d : ℕ) (rest : Bytes) {text : Bytes}
      → IsInverse room
      → enc_lookup codec v d ≡ ok text
      → decode_lookup codec (suc room) (text ++ rest) ≡ ok (v, rest)
  decode_lookup-enc_lookup v room d rest inverse written =
      let (word, part, called, encoded, same) = enc_lookup-ok v d written in
      subst (λ t. decode_lookup codec (suc room) (t ++ rest) ≡ ok (v, rest)) same
        (decode_lookup-object room d v.outcome word rest v.request part inverse called encoded)

  lookup-IsRaw :
      (v : WireLookup Q) (room d : ℕ) {text : Bytes}
      → IsInverse room
      → enc_lookup codec v d ≡ ok text
      → IsRaw (suc room) text
  unfolding skip_white object
  lookup-IsRaw v room d inverse written =
      let (word, part, called, encoded, same) = enc_lookup-ok v d written in
      subst (IsRaw (suc room)) same λ rest. (
        skip_value-lookup room d word rest v.request part inverse
            (lookup_name-some v.outcome word called).1 encoded,
        refl,
      )

  -- The result of Resolve is read back, two levels deep, from what is written of it.
  pub decode_lookup_result-enc_lookup_result :
      (v : WireLookup Q) (room d : ℕ) (rest : Bytes) {text : Bytes}
      → IsInverse room
      → enc_lookup_result codec v d ≡ ok text
      → decode_lookup_result codec (suc (suc room)) (text ++ rest) ≡ ok (v, rest)
  unfolding enc_lookup_result decode_lookup_result set_lookup_result equal contains all_seen
      valid_utf8 valid_loop lead skip_white
  decode_lookup_result-enc_lookup_result v room d rest {text} inverse written =
      let (value, encoded, same) = >>=-eq-ok _ _ written in
      let whole : object d ((codes "value", value) ∷ []) ≡ text = cc in
      subst (λ t. decode_lookup_result codec (suc (suc room)) (t ++ rest) ≡ ok (v, rest)) whole
        (read_object-object (set_lookup_result codec) _ (suc room) d (codes "value") value [] rest
          refl
          (member (codes "value") value refl refl
            (λ rest _.
              ap (decode_lookup codec (suc room))
                (lookup-IsRaw v room (suc d) inverse encoded rest).1
              ∙ decode_lookup-enc_lookup v room (suc d) rest inverse encoded)
            (last _ _))
          refl)

  pub lookup_result-IsRaw :
      (v : WireLookup Q) (room d : ℕ) {text : Bytes}
      → IsInverse room
      → enc_lookup_result codec v d ≡ ok text
      → IsRaw (suc (suc room)) text
  unfolding enc_lookup_result skip_white object contains equal valid_utf8 valid_loop lead
  lookup_result-IsRaw v room d {text} inverse written =
      let (value, encoded, same) = >>=-eq-ok _ _ written in
      let whole : object d ((codes "value", value) ∷ []) ≡ text = cc in
      subst (IsRaw (suc (suc room))) whole λ rest. (
        skip_value-object (suc room) d (codes "value") value [] rest (
            item (codes "value") value refl refl
              (λ rest _.
                ap (skip_value (suc room)) (lookup-IsRaw v room (suc d) inverse encoded rest).1
                ∙ (lookup-IsRaw v room (suc d) inverse encoded rest).0)
              (ended _)),
        refl,
      )
