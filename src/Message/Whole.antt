-- ===== src/Message/Whole.antt =====
-- go/abstraction/model/api/rec.go: EncodeRefAt, EncodeRef, DecodeRefAt and DecodeRef, and the same four of
-- LookupResult and of ManifestResult, which are these with another writer and reader. A panic is an
-- error here.
use abstraction_model.Base.{
  >>=-ok, Bytes, Result, [], ap, append-nil, if◌then◌else◌, is_negative, is_positive, leb, ltb,
  negsuc, not, ok, pos, refl, sym, ℕ, ℤ, ◌&&◌, ◌++◌, ◌-◌, ◌>>=◌, ◌||◌, ◌∙◌, ◌∷◌, ◌≡◌,
}
use abstraction_model.Codec.{Refusal, refuse, skip_white}
use abstraction_model.Record.{object}
use abstraction_model.Ref.{Ref}
use abstraction_model.Message.{decode_ref, enc_ref}
use abstraction_model.Message.RoundTrip.{IsText, decode_ref-enc_ref}
use abstraction_model.Message.Results.{
  Imported, WireLookup, WireManifest, decode_lookup, decode_manifest, enc_lookup, enc_manifest,
}
use abstraction_model.Endpoint.{depth_limit, nothing_left}

-- The number of an int, 0 below it.
abbrev pub or_zero : ℤ → ℕ
or_zero (pos n) = n
or_zero (negsuc n) = 0

-- depthLimit of a reader.
unfoldable pub limit_of : ℤ → ℕ
limit_of limit =
    if is_positive limit && ltb (or_zero limit) depth_limit then or_zero limit else depth_limit

module _ {A : Type 0} (read : ℕ → Bytes → Result Refusal (A × Bytes)) where
  -- The `int` results tell how many bytes were read; here it is what is left.
  unfoldable pub decode_at : ℤ → ℤ → Bytes → Result Refusal (A × Bytes)
  decode_at depth limit s =
      if is_negative depth || not (is_positive limit)
      then refuse "depth_exceeded" s
      else read (limit_of limit - or_zero depth) (skip_white s)

  unfoldable pub decode_whole : Bytes → Result Refusal A
  decode_whole s = do
    (v, rest) ← decode_at (pos 0) (pos depth_limit) s
    nothing_left v (skip_white rest)

  module _ (write : A → ℕ → Result Refusal Bytes) where
    -- What is written is read once more before it is returned.
    unfoldable pub encode_at : A → ℤ → Result Refusal Bytes
    encode_at v depth =
        if is_negative depth || leb depth_limit (or_zero depth)
        then refuse "depth_exceeded" []
        else do out ← write v (or_zero depth); found ← decode_at depth (pos depth_limit) out; ok out

    unfoldable pub encode_whole : A → Result Refusal Bytes
    encode_whole v = do out ← encode_at v (pos 0); ok (out ++ 10 ∷ [])

abbrev pub write_ref : Ref → ℕ → Result Refusal Bytes
write_ref v depth = ok (enc_ref v depth)

unfoldable pub decode_ref_at : ℤ → ℤ → Bytes → Result Refusal (Ref × Bytes)
decode_ref_at = decode_at decode_ref

unfoldable pub encode_ref_at : Ref → ℤ → Result Refusal Bytes
encode_ref_at = encode_at decode_ref write_ref

unfoldable pub encode_ref : Ref → Result Refusal Bytes
encode_ref = encode_whole decode_ref write_ref

unfoldable pub decode_ref_whole : Bytes → Result Refusal Ref
decode_ref_whole = decode_whole decode_ref

module _ {Q : Type 0} (codec : Imported Q) where
  unfoldable pub decode_lookup_at : ℤ → ℤ → Bytes → Result Refusal (WireLookup Q × Bytes)
  decode_lookup_at = decode_at (decode_lookup codec)

  unfoldable pub encode_lookup_at : WireLookup Q → ℤ → Result Refusal Bytes
  encode_lookup_at = encode_at (decode_lookup codec) (enc_lookup codec)

  unfoldable pub encode_lookup : WireLookup Q → Result Refusal Bytes
  encode_lookup = encode_whole (decode_lookup codec) (enc_lookup codec)

  unfoldable pub decode_lookup_whole : Bytes → Result Refusal (WireLookup Q)
  decode_lookup_whole = decode_whole (decode_lookup codec)

  unfoldable pub decode_manifest_at : ℤ → ℤ → Bytes → Result Refusal (WireManifest Q × Bytes)
  decode_manifest_at = decode_at (decode_manifest codec)

  unfoldable pub encode_manifest_at : WireManifest Q → ℤ → Result Refusal Bytes
  encode_manifest_at = encode_at (decode_manifest codec) (enc_manifest codec)

  unfoldable pub encode_manifest : WireManifest Q → Result Refusal Bytes
  encode_manifest = encode_whole (decode_manifest codec) (enc_manifest codec)

  unfoldable pub decode_manifest_whole : Bytes → Result Refusal (WireManifest Q)
  decode_manifest_whole = decode_whole (decode_manifest codec)

enc_ref-solid :
    (v : Ref) (d : ℕ) (rest : Bytes) → skip_white (enc_ref v d ++ rest) ≡ enc_ref v d ++ rest
unfolding enc_ref object skip_white
enc_ref-solid v d rest = refl

-- EncodeRef of a reference of valid texts does not panic, and DecodeRef reads it back.
pub decode_ref_whole-encode_ref : (v : Ref) → IsText v → (encode_ref v >>= decode_ref_whole) ≡ ok v
unfolding encode_ref decode_ref_whole decode_whole encode_whole encode_at decode_at limit_of
    skip_white
decode_ref_whole-encode_ref v good =
    let alone : decode_ref 64 (skip_white (enc_ref v 0)) ≡ ok (v, []) =
      ap (λ t. decode_ref 64 (skip_white t)) (sym (append-nil (enc_ref v 0)))
      ∙ ap (decode_ref 64) (enc_ref-solid v 0 [])
      ∙ decode_ref-enc_ref v 63 0 [] good in
    let written : encode_ref v ≡ ok (enc_ref v 0 ++ 10 ∷ []) = >>=-ok _ (>>=-ok _ alone) in
    >>=-ok _ written
    ∙ >>=-ok _ (
        ap (decode_ref 64) (enc_ref-solid v 0 (10 ∷ [])) ∙ decode_ref-enc_ref v 63 0 (10 ∷ []) good)
