-- ===== src/Service/Examples.antt =====
-- The theorems on the lookup service and its client, applied to a call of the host's owner.
use abstraction_model.Base.{
  Bytes, [], codes, equal, false, none, ok, pos, refl, some, true, ◌∷◌, ◌≡◌,
}
use abstraction_model.Strings.{
  cut_byte, cut_prefix, has_any, has_prefix, trim, trim_prefix, trim_space,
}
use abstraction_model.Download.{Spec, attr, one_source}
use abstraction_model.Credentials.{CredentialHeaders}
use abstraction_model.Ref.{Ref}
use abstraction_model.Hf.{credential_attr}
use abstraction_model.Registry.{
  Registry, checked, choose_resolver, new_service_registry, resolve_ref,
}
use abstraction_model.Wire.{LookupResult, PortableRequest, resolved}
use abstraction_model.Service.{
  Call, Host, Outside, allowed, any_bad_text, authorized, bad_credential, bad_hf, bad_ollama,
  bad_text, context_of, credential_byte, foreign_attrs, lookup, not_portable, portable_sources,
  portable_spec, receive, stopped, subject, valid_ref, validated, windows,
}
use abstraction_model.Service.Lookup.{IsLookup, lookup-IsLookup}
use abstraction_model.Service.Receiver.{IsAdmitted, receive-IsAdmitted}
use abstraction_model.Service.Lifecycle.{
  IsHostState, accept, accepts, begin_serve, closes, here, listening, serves, there,
}
use abstraction_model.Service.Lifecycle.Invariant.{Reaches-SameSetup, SameSetup, listening-Reaches}
use abstraction_model.Client.{
  accepted, ParseUrl, consistent, hex_bytes, is_hex, resolve_context, valid_artifact, valid_request,
  valid_result, valid_sources, valid_url,
}
use abstraction_model.Client.Accepted.{Holds, resolve_context-Holds}

abbrev digest_text : Bytes
digest_text = codes "sha256:0123456789abcdef0123456789abcdef0123456789abcdef0123456789abcdef"

abbrev hosted : Spec
hosted =
    one_source digest_text (pos 7) (codes "https") (codes "https://h/f")
      ((credential_attr, codes "team") ∷ [])

abbrev hosting : Registry
hosting =
    new_service_registry (record { registry = codes "p"; resolve = (λ ctx r. ok hosted) } ∷ [])

abbrev outside : Outside
outside = record { valid_string = (λ s. true); retryable = (λ e. false); portable = (λ q. true) }

abbrev wanted_ref : Ref
wanted_ref = record {
  registry = codes "p";
  repo = codes "x";
  revision = [];
  quant = [];
  file = [];
  credential = codes "team";
}

abbrev handed : PortableRequest
handed = record {
  artifact = hosted.artifact;
  sources =
      record { scheme = codes "https"; locator = codes "https://h/f"; credential = codes "team" }
      ∷ [];
}

lookup-IsLookup_example : IsLookup outside none (some hosting) wanted_ref handed
unfolding lookup valid_ref bad_credential bad_text any_bad_text bad_ollama bad_hf credential_byte
    trim trim_space has_any portable_spec validated portable_sources not_portable foreign_attrs attr
    resolve_ref choose_resolver checked equal cut_byte
lookup-IsLookup_example = lookup-IsLookup outside none (some hosting) wanted_ref refl

abbrev applier : Bytes → Bytes → CredentialHeaders
applier account program name host = ok ((codes "X-Key", account) ∷ [])

abbrev served : Host
served = record {
  owner = codes "u";
  registry = some hosting;
  policy = some (λ scheme. allowed);
  apply = some applier;
  itoa = (λ n. codes "1");
  is_abs = (λ p. true);
  clean = (λ p. p);
}

abbrev owner_call : Call
owner_call = record {
  has_peer = true;
  user = some (windows (codes "u"));
  rechecked = true;
  program = some (codes "/bin/app");
  expired = false;
}

receive_run : (receive outside served owner_call wanted_ref).request ≡ some handed
unfolding receive authorized stopped context_of subject lookup valid_ref bad_credential bad_text
    any_bad_text bad_ollama bad_hf credential_byte trim trim_space has_any portable_spec validated
    portable_sources not_portable foreign_attrs attr resolve_ref choose_resolver checked equal
    cut_byte
receive_run = refl

receive-IsAdmitted_example : IsAdmitted outside served owner_call wanted_ref handed
receive-IsAdmitted_example = receive-IsAdmitted outside served owner_call wanted_ref receive_run

abbrev parsing : ParseUrl
parsing s = some (record { scheme = codes "https"; host = codes "h"; has_user = false })

abbrev handed_result : LookupResult
handed_result = record { outcome = resolved; request = some handed }

resolve_context-Holds_example : Holds parsing resolved (some handed)
unfolding resolve_context accepted valid_result consistent valid_request valid_artifact
    valid_sources valid_url hex_bytes is_hex trim_prefix has_prefix cut_prefix equal
resolve_context-Holds_example =
    resolve_context-Holds parsing (λ r. ok handed_result) false wanted_ref {x = handed_result} refl

listening-Reaches_example :
    IsHostState (accept (record listening { serving = true; accepting = true }))
unfolding begin_serve accept
listening-Reaches_example = listening-Reaches (there (serves refl) (there (accepts refl) here))

Reaches-SameSetup_example :
    SameSetup
      (record listening { serving = true })
      (record listening { serving = true; closed = true })
Reaches-SameSetup_example = Reaches-SameSetup refl (there closes here)
