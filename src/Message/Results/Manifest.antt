-- ===== src/Message/Results/Manifest.antt =====
-- The manifest service's result is read back from what its writer writes.
use mathlib.Core.Path.{subst, ap, ◌∙◌}
use abstraction_model.Base.{
  >>=-eq-ok, >>=-ok, Bytes, List, Option, [], ap, arith, codes, contains, equal, none, ok, refl,
  some, suc, true, ℕ, ◌++◌, ◌∙◌, ◌∷◌, ◌≡◌,
}
use abstraction_model.Codec.{esc, lead, skip_white, valid_loop, valid_utf8}
use abstraction_model.Record.{all_seen, object}
use abstraction_model.Record.RoundTrip.{last, member, read_object-object}
use abstraction_model.Raw.{skip_value}
use abstraction_model.Raw.Walk.{ended, item, skip_value-esc, skip_value-object}
use abstraction_model.Vocabulary.{manifest_name, parse_manifest}
use abstraction_model.Vocabulary.Json.{manifest_name-some}
use abstraction_model.Message.RoundTrip.{text_field-esc}
use abstraction_model.Message.Frames.{IsRaw}
use abstraction_model.Message.Results.{
  Imported, WireManifest, decode_manifest, decode_manifest_result, enc_imported, enc_manifest,
  enc_manifest_result, set_manifest, set_manifest_result,
}
use abstraction_model.Message.Results.RoundTrip.{
  IsInverse, imported-IsRaw, imported_field-IsInverse, named-ok, outcome_field-esc,
}

module _ {Q : Type 0} (codec : Imported Q) where
  decode_manifest-object :
      (room d o : ℕ) (word r rest : Bytes) (manifest : Option Q) (part : List (Bytes × Bytes))
      → IsInverse codec room
      → valid_utf8 r ≡ true
      → manifest_name o ≡ some word
      → enc_imported codec (codes "manifest") manifest (suc d) ≡ ok part
      → decode_manifest codec (suc room) (
          object d ((codes "outcome", esc word) ∷ (part ++ (codes "resolved_revision", esc r) ∷ []))
          ++ rest)
        ≡ ok (record { outcome = o; manifest = manifest; resolved_revision = r }, rest)
  unfolding decode_manifest set_manifest equal contains all_seen valid_utf8 valid_loop lead
      enc_imported
  decode_manifest-object room d o word r rest none [] inverse good called written =
      let names = manifest_name-some o word called in
      >>=-ok _ (
        read_object-object (set_manifest codec) _ room d (codes "outcome") (esc word) _ rest refl
          (member (codes "outcome") (esc word) refl refl
            (λ rest _. outcome_field-esc parse_manifest _ o word rest names)
            (member (codes "resolved_revision") (esc r) refl refl
              (λ rest _. text_field-esc _ r rest good) (last _ _)))
          refl)
      ∙ rw called refl
  decode_manifest-object room d o word r rest none (m ∷ ms) inverse good called written =
      absurd (ground arith)
  decode_manifest-object room d o word r rest (some q) part inverse good called written =
      let names = manifest_name-some o word called in
      let (text, encoded, same) = >>=-eq-ok _ _ written in
      let parts : (codes "manifest", text) ∷ [] ≡ part = cc in
      subst
        (λ p.
          decode_manifest codec (suc room) (
            object d ((codes "outcome", esc word) ∷ (p ++ (codes "resolved_revision", esc r) ∷ []))
            ++ rest)
          ≡ ok (record { outcome = o; manifest = some q; resolved_revision = r }, rest))
        parts
        (>>=-ok _ (
            read_object-object (set_manifest codec) _ room d (codes "outcome") (esc word) _ rest
              refl
              (member (codes "outcome") (esc word) refl refl
                (λ rest _. outcome_field-esc parse_manifest _ o word rest names)
                (member (codes "manifest") text refl refl
                  (λ rest _.
                    imported_field-IsInverse codec _ room q (suc d) text rest inverse encoded)
                  (member (codes "resolved_revision") (esc r) refl refl
                    (λ rest _. text_field-esc _ r rest good) (last _ _))))
              refl)
          ∙ rw called refl)

  skip_value-manifest :
      (room d : ℕ) (word r rest : Bytes) (manifest : Option Q) (part : List (Bytes × Bytes))
      → IsInverse codec room
      → valid_utf8 r ≡ true
      → valid_utf8 word ≡ true
      → enc_imported codec (codes "manifest") manifest (suc d) ≡ ok part
      → skip_value (suc room) (
          object d ((codes "outcome", esc word) ∷ (part ++ (codes "resolved_revision", esc r) ∷ []))
          ++ rest)
        ≡ ok rest
  unfolding enc_imported equal contains valid_utf8 valid_loop lead skip_white esc
  skip_value-manifest room d word r rest none [] inverse fine good written =
      skip_value-object room d (codes "outcome") (esc word) _ rest (
        item (codes "outcome") (esc word) refl refl (λ rest _. skip_value-esc room word rest good)
          (item (codes "resolved_revision") (esc r) refl refl
            (λ rest _. skip_value-esc room r rest fine) (ended _)))
  skip_value-manifest room d word r rest none (m ∷ ms) inverse fine good written =
      absurd (ground arith)
  skip_value-manifest room d word r rest (some q) part inverse fine good written =
      let (text, encoded, same) = >>=-eq-ok _ _ written in
      let parts : (codes "manifest", text) ∷ [] ≡ part = cc in
      subst
        (λ p.
          skip_value (suc room) (
            object d ((codes "outcome", esc word) ∷ (p ++ (codes "resolved_revision", esc r) ∷ []))
            ++ rest)
          ≡ ok rest)
        parts
        (skip_value-object room d (codes "outcome") (esc word) _ rest (
          item (codes "outcome") (esc word) refl refl (λ rest _. skip_value-esc room word rest good)
            (item (codes "manifest") text refl refl
              (λ rest _. imported-IsRaw codec room q (suc d) text rest inverse encoded)
              (item (codes "resolved_revision") (esc r) refl refl
                (λ rest _. skip_value-esc room r rest fine) (ended _)))))

  enc_manifest-ok :
      (v : WireManifest Q) (d : ℕ) {text : Bytes}
      → enc_manifest codec v d ≡ ok text
      → (word : Bytes) × (part : List (Bytes × Bytes)) × (manifest_name v.outcome ≡ some word)
        × (enc_imported codec (codes "manifest") v.manifest (suc d) ≡ ok part)
        × (object d (
              (codes "outcome", esc word)
              ∷ (part ++ (codes "resolved_revision", esc v.resolved_revision) ∷ []))
            ≡ text)
  unfolding enc_manifest
  enc_manifest-ok v d written =
      let (word, called, more₁) = >>=-eq-ok _ _ written in
      let (part, encoded, same) = >>=-eq-ok _ _ more₁ in
      (word, part, named-ok (manifest_name v.outcome) word called, encoded, cc)

  -- A manifest's result that is written is read back, with the manifest that it carries and the
  -- revision.
  pub decode_manifest-enc_manifest :
      (v : WireManifest Q) (room d : ℕ) (rest : Bytes) {text : Bytes}
      → IsInverse codec room
      → valid_utf8 v.resolved_revision ≡ true
      → enc_manifest codec v d ≡ ok text
      → decode_manifest codec (suc room) (text ++ rest) ≡ ok (v, rest)
  decode_manifest-enc_manifest v room d rest inverse good written =
      let (word, part, called, encoded, same) = enc_manifest-ok v d written in
      subst (λ t. decode_manifest codec (suc room) (t ++ rest) ≡ ok (v, rest)) same
        (decode_manifest-object room d v.outcome word v.resolved_revision rest v.manifest part
          inverse good called encoded)

  manifest-IsRaw :
      (v : WireManifest Q) (room d : ℕ) {text : Bytes}
      → IsInverse codec room
      → valid_utf8 v.resolved_revision ≡ true
      → enc_manifest codec v d ≡ ok text
      → IsRaw (suc room) text
  unfolding skip_white object
  manifest-IsRaw v room d inverse good written =
      let (word, part, called, encoded, same) = enc_manifest-ok v d written in
      subst (IsRaw (suc room)) same λ rest. (
        skip_value-manifest room d word v.resolved_revision rest v.manifest part inverse good
            (manifest_name-some v.outcome word called).1 encoded,
        refl,
      )

  -- The result of Resolve is read back, two levels deep, from what is written of it.
  pub decode_manifest_result-enc_manifest_result :
      (v : WireManifest Q) (room d : ℕ) (rest : Bytes) {text : Bytes}
      → IsInverse codec room
      → valid_utf8 v.resolved_revision ≡ true
      → enc_manifest_result codec v d ≡ ok text
      → decode_manifest_result codec (suc (suc room)) (text ++ rest) ≡ ok (v, rest)
  unfolding enc_manifest_result decode_manifest_result set_manifest_result equal contains all_seen
      valid_utf8 valid_loop lead skip_white
  decode_manifest_result-enc_manifest_result v room d rest {text} inverse good written =
      let (value, encoded, same) = >>=-eq-ok _ _ written in
      let whole : object d ((codes "value", value) ∷ []) ≡ text = cc in
      subst (λ t. decode_manifest_result codec (suc (suc room)) (t ++ rest) ≡ ok (v, rest)) whole
        (read_object-object (set_manifest_result codec) _ (suc room) d (codes "value") value [] rest
          refl
          (member (codes "value") value refl refl
            (λ rest _.
              ap (decode_manifest codec (suc room))
                (manifest-IsRaw v room (suc d) inverse good encoded rest).1
              ∙ decode_manifest-enc_manifest v room (suc d) rest inverse good encoded)
            (last _ _))
          refl)

  pub manifest_result-IsRaw :
      (v : WireManifest Q) (room d : ℕ) {text : Bytes}
      → IsInverse codec room
      → valid_utf8 v.resolved_revision ≡ true
      → enc_manifest_result codec v d ≡ ok text
      → IsRaw (suc (suc room)) text
  unfolding enc_manifest_result skip_white object contains equal valid_utf8 valid_loop lead
  manifest_result-IsRaw v room d {text} inverse good written =
      let (value, encoded, same) = >>=-eq-ok _ _ written in
      let whole : object d ((codes "value", value) ∷ []) ≡ text = cc in
      subst (IsRaw (suc (suc room))) whole λ rest. (
        skip_value-object (suc room) d (codes "value") value [] rest (
            item (codes "value") value refl refl
              (λ rest _.
                ap (skip_value (suc room))
                  (manifest-IsRaw v room (suc d) inverse good encoded rest).1
                ∙ (manifest-IsRaw v room (suc d) inverse good encoded rest).0)
              (ended _)),
        refl,
      )
