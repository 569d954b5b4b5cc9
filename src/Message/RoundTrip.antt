-- ===== src/Message/RoundTrip.antt =====
-- Each record of the wire is read back from what its writer writes.
use abstraction_model.Base.{
  >>=-ok, Bytes, List, [], codes, contains, equal, ok, refl, suc, true, ℕ, ◌++◌, ◌∷◌, ◌≡◌,
}
use abstraction_model.Codec.{esc, lead, skip_white, valid_loop, valid_utf8}
use abstraction_model.Codec.RoundTrip.{str-esc}
use abstraction_model.Record.{all_seen, object}
use abstraction_model.Record.RoundTrip.{Reads, last, member, read_object-object}
use abstraction_model.Ref.{Ref}
use abstraction_model.Message.Envelope.{ErrorBody, decode_error, enc_error, set_error}
use abstraction_model.Message.{
  decode_arguments, decode_ref, enc_arguments, enc_ref, optional, set_arguments, set_ref,
  text_field,
}

pub text_field-esc :
    {V : Type 0} (store : Bytes → V) (word rest : Bytes)
    → valid_utf8 word ≡ true
    → text_field store (skip_white (32 ∷ (esc word ++ rest))) ≡ ok (store word, rest)
unfolding skip_white esc
text_field-esc store word rest good = >>=-ok _ (str-esc word rest good)

-- The texts of a reference.
abbrev pub IsText : Ref → Type 0
IsText v =
    (valid_utf8 v.registry ≡ true)
    × (valid_utf8 v.repo ≡ true)
    × (valid_utf8 v.revision ≡ true)
    × (valid_utf8 v.quant ≡ true)
    × (valid_utf8 v.file ≡ true)
    × (valid_utf8 v.credential ≡ true)

read_credential :
    (room : ℕ) (a b c d e f : Bytes)
    → valid_utf8 f ≡ true
    → (all : List Bytes) × Reads
        (set_ref room)
        (codes "file" ∷ codes "quant" ∷ codes "revision" ∷ codes "repo" ∷ codes "registry" ∷ [])
        (record { registry = a; repo = b; revision = c; quant = d; file = e; credential = [] })
        (optional (codes "credential") f)
        all
        (record { registry = a; repo = b; revision = c; quant = d; file = e; credential = f })
      × (all_seen
            (codes "registry" ∷ codes "repo" ∷ codes "revision" ∷ codes "quant" ∷ codes "file" ∷ [])
            all
          ≡ true)
unfolding set_ref equal contains all_seen valid_utf8 valid_loop lead
read_credential room a b c d e [] good = (_, last _ _, refl)
read_credential room a b c d e (x ∷ s) good = (
  _,
  member (codes "credential") (esc (x ∷ s)) refl refl (λ rest _. text_field-esc _ (x ∷ s) rest good)
      (last _ _),
  refl,
)

-- A reference of valid texts is read back whole, the credential's name included, where one container
-- may still be opened; the reader stops behind the closing brace.
pub decode_ref-enc_ref :
    (v : Ref) (room d : ℕ) (rest : Bytes)
    → IsText v
    → decode_ref (suc room) (enc_ref v d ++ rest) ≡ ok (v, rest)
unfolding decode_ref enc_ref set_ref equal contains valid_utf8 valid_loop lead
decode_ref-enc_ref v room d rest (g₁, g₂, g₃, g₄, g₅, g₆) =
    let (all, others, complete) =
      read_credential room v.registry v.repo v.revision v.quant v.file v.credential g₆ in
    read_object-object set_ref _ room d (codes "registry") (esc v.registry) _ rest refl
      (member (codes "registry") (esc v.registry) refl refl
        (λ rest _. text_field-esc _ v.registry rest g₁)
        (member (codes "repo") (esc v.repo) refl refl (λ rest _. text_field-esc _ v.repo rest g₂)
          (member (codes "revision") (esc v.revision) refl refl
            (λ rest _. text_field-esc _ v.revision rest g₃)
            (member (codes "quant") (esc v.quant) refl refl
              (λ rest _. text_field-esc _ v.quant rest g₄)
              (member (codes "file") (esc v.file) refl refl
                (λ rest _. text_field-esc _ v.file rest g₅) others)))))
      complete

-- The arguments of Resolve are read back, two levels deep.
pub decode_arguments-enc_arguments :
    (v : Ref) (room d : ℕ) (rest : Bytes)
    → IsText v
    → decode_arguments (suc (suc room)) (enc_arguments v d ++ rest) ≡ ok (v, rest)
unfolding decode_arguments enc_arguments set_arguments equal contains valid_utf8 valid_loop lead
    all_seen skip_white object enc_ref
decode_arguments-enc_arguments v room d rest good =
    read_object-object set_arguments _ (suc room) d (codes "ref") (enc_ref v (suc d)) [] rest refl
      (member (codes "ref") (enc_ref v (suc d)) refl refl
        (λ rest _. decode_ref-enc_ref v room (suc d) rest good) (last _ _))
      refl

-- An error is read back.
pub decode_error-enc_error :
    (v : ErrorBody) (room d : ℕ) (rest : Bytes)
    → valid_utf8 v.code ≡ true
    → valid_utf8 v.message ≡ true
    → decode_error (suc room) (enc_error v d ++ rest) ≡ ok (v, rest)
unfolding decode_error enc_error set_error equal contains valid_utf8 valid_loop lead all_seen
decode_error-enc_error v room d rest good₁ good₂ =
    read_object-object set_error _ room d (codes "code") (esc v.code) _ rest refl
      (member (codes "code") (esc v.code) refl refl (λ rest _. text_field-esc _ v.code rest good₁)
        (member (codes "message") (esc v.message) refl refl
          (λ rest _. text_field-esc _ v.message rest good₂) (last _ _)))
      refl
