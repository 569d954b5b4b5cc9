-- ===== src/System/Examples.antt =====
-- A call of the receiver by the host's owner, from end to end.
use mathlib.Core.Path.{subst}
use abstraction_model.Base.{
  >>=-ok, Bool-cases, Bytes, List, Result, [], arith, codes, equal, false, if◌then◌else◌, inl, inr,
  negsuc, none, ok, pos, refl, some, suc, true, zero, ℤ, ◌++◌, ◌∷◌, ◌≡◌,
}
use abstraction_model.System.{client_call, number_of, receiver_handler, resolve_context-receive}
use abstraction_model.Client.{ParseUrl, accepted, resolve_context}
use abstraction_model.Service.{
  Call, Host, Outside, any_bad_text, authorized, bad_credential, bad_hf, bad_ollama, bad_text,
  context_of, credential_byte, foreign_attrs, lookup, not_portable, portable_sources, portable_spec,
  receive, stopped, subject, valid_ref, validated, windows,
}
use abstraction_model.Endpoint.Exchange.{resolver_exchange}
use abstraction_model.Vocabulary.{lookup_name}
use abstraction_model.Registry.{
  Registry, checked, choose_resolver, new_service_registry, resolve_ref,
}
use abstraction_model.Ref.{Ref}
use abstraction_model.Strings.{cut_byte, has_any, trim, trim_space}
use abstraction_model.Codec.{Refusal, esc, lead, refuse, skip_white, valid_loop, valid_utf8}
use abstraction_model.Codec.RoundTrip.{str-esc}
use abstraction_model.Raw.{skip_value}
use abstraction_model.Raw.Walk.{skip_value-esc}
use abstraction_model.Download.{Artifact, attr}
use abstraction_model.Wire.{PortableRequest, PortableSource}
use abstraction_model.Message.{text_field}
use abstraction_model.Message.Results.{Imported, enc_imported, enc_lookup, enc_lookup_result}
use abstraction_model.Message.Results.RoundTrip.{IsInverse}

-- A codec that writes the digest of a request of size 0 with no sources, and refuses all others.
abbrev bare : Artifact → List PortableSource → Result Refusal Bytes
bare a [] = elim a.size [
  | pos n ↦ elim n [
    | zero ↦ if valid_utf8 a.digest then ok (esc a.digest) else refuse "bad_string" []
    | suc _ ↦ refuse "bad_string" []
  ]
  | negsuc n ↦ refuse "bad_string" []
]
bare a (s ∷ ss) = refuse "bad_string" []

abbrev bare_of : Bytes → PortableRequest
bare_of digest = record { artifact = record { digest = digest; size = pos 0 }; sources = [] }

abbrev bare_codec : Imported PortableRequest
bare_codec = record {
  encode = λ q depth. bare q.artifact q.sources;
  decode = λ room s. text_field bare_of s;
}

bare-esc :
    (digest text rest : Bytes)
    → (if valid_utf8 digest then ok (esc digest) else refuse "bad_string" []) ≡ ok text
    → (text_field bare_of (text ++ rest) ≡ ok (bare_of digest, rest))
      × (skip_value 61 (text ++ rest) ≡ ok rest)
      × (skip_white (text ++ rest) ≡ text ++ rest)
unfolding skip_white esc
bare-esc digest text rest e = elim (Bool-cases (valid_utf8 digest)) [
  | inl good ↦
      let same : esc digest ≡ text = ground (arith, e, good) in
      subst
        (λ t.
          (text_field bare_of (t ++ rest) ≡ ok (bare_of digest, rest))
          × (skip_value 61 (t ++ rest) ≡ ok rest)
          × (skip_white (t ++ rest) ≡ t ++ rest))
        same (>>=-ok _ (str-esc digest rest good), skip_value-esc 61 digest rest good, refl)
  | inr bad ↦ absurd (ground (arith, e, bad))
]

bare-inverse :
    (digest : Bytes) (size : ℤ) (sources : List PortableSource) (text rest : Bytes)
    → bare (record { digest = digest; size = size }) sources ≡ ok text
    → (text_field bare_of (text ++ rest)
        ≡ ok (
          record { artifact = record { digest = digest; size = size }; sources = sources },
          rest,
        ))
      × (skip_value 61 (text ++ rest) ≡ ok rest)
      × (skip_white (text ++ rest) ≡ text ++ rest)
bare-inverse digest (pos zero) [] text rest e = bare-esc digest text rest e
bare-inverse digest (pos (suc n)) [] text rest e = absurd (ground arith)
bare-inverse digest (negsuc n) [] text rest e = absurd (ground arith)
bare-inverse digest size (s ∷ ss) text rest e = absurd (ground arith)

bare-IsInverse : IsInverse bare_codec 61
bare-IsInverse q depth text rest e =
    bare-inverse q.artifact.digest q.artifact.size q.sources text rest e

-- A registry whose resolver knows a digest and no source.
abbrev knowing : Registry
knowing = new_service_registry (
    record {
      registry = codes "p";
      resolve = (λ ctx r. ok (record {
        artifact = record { digest = codes "sha256:00"; size = pos 0 };
        sources = [];
        sink = [];
        request = [];
      }));
    }
    ∷ [])

abbrev outside : Outside
outside = record { valid_string = (λ s. true); retryable = (λ e. false); portable = (λ q. true) }

abbrev plain_host : Host
plain_host = record {
  owner = codes "u";
  registry = some knowing;
  policy = none;
  apply = none;
  itoa = (λ n. codes "1");
  is_abs = (λ p. true);
  clean = (λ p. p);
}

abbrev owner_call : Call
owner_call = record {
  has_peer = true;
  user = some (windows (codes "u"));
  rechecked = true;
  program = some (codes "/bin/app");
  expired = false;
}

abbrev asked_ref : Ref
asked_ref = record {
  registry = codes "p";
  repo = codes "x";
  revision = [];
  quant = [];
  file = [];
  credential = [];
}

abbrev parsing : ParseUrl
parsing s = none

resolve_context-receive_example :
    resolve_context parsing
      (client_call bare_codec
        (λ e. [])
        (resolver_exchange bare_codec (receiver_handler outside plain_host owner_call)))
      false
      asked_ref
    ≡ accepted parsing (receive outside plain_host owner_call asked_ref)
unfolding receive authorized stopped context_of subject lookup valid_ref bad_credential bad_text
    any_bad_text bad_ollama bad_hf credential_byte trim trim_space has_any portable_spec validated
    portable_sources not_portable foreign_attrs attr resolve_ref choose_resolver checked equal
    cut_byte enc_lookup_result enc_lookup enc_imported lookup_name number_of valid_utf8 valid_loop
    lead
resolve_context-receive_example =
    resolve_context-receive bare_codec (λ e. []) parsing outside plain_host owner_call asked_ref
      (refl, refl, refl, refl, refl, refl) bare-IsInverse refl
