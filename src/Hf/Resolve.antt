-- ===== src/Hf/Resolve.antt =====
-- What HF.Resolve answers: a pinned, verifiable source, and no secret.
use mathlib.Core.List.{Memᴰ}
use mathlib.Core.Path.{subst, fun_ext, ap₂}
use abstraction_model.Base.{
  >>=-eq-ok, Bool-cases, Bytes, List, Option, Result, [], ap, arith, codes, equal, equal_iff, err,
  false, if◌then◌else◌, inl, inr, none, ok, pos, refl, some, true, ◌++◌, ◌>>=◌, ◌∷◌, ◌≡◌, ◌≢◌, ◌⊎◌,
}
use abstraction_model.Hf.Pick.{pick-ok}
use abstraction_model.Strings.{has, has_prefix, to_lower}
use abstraction_model.Download.{Spec}
use abstraction_model.Credentials.{
  ApplyError, CredentialHeaders, Prepared, applied, apply_credential, typed, untyped,
}
use abstraction_model.Ref.{Ref}
use abstraction_model.Hf.{
  Hf, HfError, HfFile, HfModel, Lfs, Web, answered, api_url, base, exchange, hf_attrs, listing_of,
  pick, picked, prepare, published, request_for, resolve, revision_of, spec_from, spec_of,
  valid_filename, valid_repo,
}

-- The commit that the origin answered with, or the revision asked for where it names none.
abbrev pub pin : Ref → HfModel → Bytes
pin r m = if equal m.sha [] then revision_of r else m.sha

-- A resolved reference: a listed file with a published digest, at the commit that the origin
-- answered with or else the revision asked for, under a name that stays inside a destination folder.
pub record IsResolved (h : Hf) (web : Web) (r : Ref) (spec : Spec) : Type 0 where
  pub prepared : Prepared
  pub listing : HfModel
  pub file : HfFile
  pub lfs : Lfs
  pub reply : web.send prepared (api_url h r) ≡ some (record { code = 200; body = some listing })
  pub chosen : pick listing.siblings r ≡ ok file
  pub listed : Memᴰ file listing.siblings
  pub no_parent : has (codes "..") file.rfilename ≡ false
  pub not_rooted : has_prefix (codes "/") file.rfilename ≡ false
  pub no_backslash : has (codes "\\") file.rfilename ≡ false
  pub published_lfs : file.lfs ≡ some lfs
  pub sha_ne_nil : lfs.sha256 ≢ []
  pub digest_is : spec.artifact.digest ≡ codes "sha256:" ++ to_lower lfs.sha256
  pub sources_are :
      spec.sources
      ≡ record {
        scheme = codes "https";
        locator =
            base h
            ++ (codes "/"
                ++ (r.repo
                    ++ (codes "/resolve/" ++ (pin r listing ++ (codes "/" ++ file.rfilename)))));
        priority = pos 0;
        attrs = hf_attrs h.token r.credential;
        headers = [];
      }
        ∷ []

exchange-ok :
    (web : Web) (p : Prepared) (url : Bytes) {m : HfModel}
    → exchange web p url ≡ ok m
    → web.send p url ≡ some (record { code = 200; body = some m })
unfolding exchange
exchange-ok web p url {m} e = ground arith

valid_filename-ok :
    (name : Bytes) {u : Unit {0}}
    → valid_filename name ≡ ok u
    → (has (codes "..") name ≡ false)
      × (has_prefix (codes "/") name ≡ false)
      × (has (codes "\\") name ≡ false)
unfolding valid_filename
valid_filename-ok name e = ground arith

published-ok :
    (r : Ref) (f : HfFile) {l : Lfs} → published r f ≡ ok l → (f.lfs ≡ some l) × (l.sha256 ≢ [])
unfolding published
published-ok r f {l} e = (ground arith, (λ n. ground (arith, equal_iff l.sha256 [])))

picked-ok : (r : Ref) (m : HfModel) {f : HfFile} → picked r m ≡ ok f → pick m.siblings r ≡ ok f
unfolding picked
picked-ok r m e = ground arith

resolved :
    (h : Hf) (web : Web) (r : Ref) (p : Prepared) (m : HfModel) (f : HfFile) (l : Lfs)
    {u : Unit {0}}
    → exchange web p (api_url h r) ≡ ok m
    → picked r m ≡ ok f
    → valid_filename f.rfilename ≡ ok u
    → published r f ≡ ok l
    → IsResolved h web r (spec_of h r m f l)
unfolding spec_of
resolved h web r p m f l sent choice name digest =
    let safe = valid_filename-ok f.rfilename name in
    record {
      prepared = p;
      listing = m;
      file = f;
      lfs = l;
      reply = exchange-ok web p (api_url h r) sent;
      chosen = picked-ok r m choice;
      listed = (pick-ok m.siblings r (picked-ok r m choice)).0;
      no_parent = safe.0;
      not_rooted = safe.1;
      no_backslash = safe.2;
      published_lfs = (published-ok r f digest).0;
      sha_ne_nil = (published-ok r f digest).1;
      digest_is = refl;
      sources_are = refl;
    }

spec_from-IsResolved :
    (h : Hf) (web : Web) (r : Ref) (p : Prepared) (m : HfModel) {spec : Spec}
    → exchange web p (api_url h r) ≡ ok m
    → spec_from h r m ≡ ok spec
    → IsResolved h web r spec
unfolding spec_from
spec_from-IsResolved h web r p m {spec} sent e =
    let (f, choice, e1) = >>=-eq-ok (picked r m) _ e in
    let (u, name, e2) = >>=-eq-ok (valid_filename f.rfilename) _ e1 in
    let (l, digest, e3) = >>=-eq-ok (published r f) _ e2 in
    let same : spec_of h r m f l ≡ spec = ground arith in
    subst (IsResolved h web r) same (resolved h web r p m f l sent choice name digest)

-- A successful Resolve answers with one https source of a listed file, at the commit that the origin
-- answered with, or at the revision asked for where the origin's answer names no commit, and with the
-- digest that the origin publishes for that file, in lower case. The file's name holds no two dots and no
-- backslash and does not begin with a slash, and the published digest is not empty.
pub resolve-IsResolved :
    (h : Hf) (web : Web) (r : Ref) {spec : Spec}
    → resolve h web r ≡ ok spec
    → IsResolved h web r spec
unfolding resolve listing_of
resolve-IsResolved h web r {spec} e =
    let (m, listed, made) = >>=-eq-ok (listing_of h web r) _ e in
    let (v, valid, e1) = >>=-eq-ok (valid_repo r.repo) _ listed in
    let (host, request, e2) = >>=-eq-ok (request_for web (api_url h r)) _ e1 in
    let (p, ready, sent) = >>=-eq-ok (prepare h web host r) _ e2 in
    spec_from-IsResolved h web r p m sent made

-- The configuration with another bearer token.
abbrev pub with_token : Hf → Bytes → Hf
with_token h token = record { base_url = h.base_url; token = token }

-- The request that a token authenticates.
abbrev pub bearer : Bytes → Prepared
bearer token = record {
  headers = (codes "Authorization", codes "Bearer " ++ token) ∷ [];
  follows = true;
}

hf_attrs-token :
    (t u credential : Bytes) → t ≢ [] → u ≢ [] → hf_attrs t credential ≡ hf_attrs u credential
unfolding hf_attrs
hf_attrs-token [] u credential nt nu = absurd (nt refl)
hf_attrs-token (c ∷ t) [] credential nt nu = absurd (nu refl)
hf_attrs-token (c ∷ t) (d ∷ u) [] nt nu = refl
hf_attrs-token (c ∷ t) (d ∷ u) (e ∷ credential) nt nu = refl

module _ (h : Hf) (web : Web) (r : Ref) (t u : Bytes) (nt : t ≢ []) (nu : u ≢ []) where
  spec_of-token :
      (m : HfModel) (f : HfFile) (l : Lfs)
      → spec_of (with_token h t) r m f l ≡ spec_of (with_token h u) r m f l
  unfolding spec_of base
  spec_of-token m f l = rw (hf_attrs-token t u r.credential nt nu)

  spec_from-token : (m : HfModel) → spec_from (with_token h t) r m ≡ spec_from (with_token h u) r m
  unfolding spec_from
  spec_from-token m = simp spec_of-token

  api_url-token : api_url (with_token h t) r ≡ api_url (with_token h u) r
  unfolding api_url base
  api_url-token = refl

  -- The two requests are one, or carry the two tokens.
  prepare-token :
      (host : Bytes)
      → (prepare (with_token h t) web host r ≡ prepare (with_token h u) web host r)
        ⊎ ((prepare (with_token h t) web host r ≡ ok (bearer t))
            × (prepare (with_token h u) web host r ≡ ok (bearer u)))
  unfolding prepare
  prepare-token host = elim (Bool-cases (equal r.credential [])) [
    | inl e ↦ inr (ground (arith, equal_iff t []), ground (arith, equal_iff u []))
    | inr e ↦ inl (rw e)
  ]

  exchange-token :
      (host : Bytes)
      → web.send (bearer t) (api_url h r) ≡ web.send (bearer u) (api_url h r)
      → (prepare (with_token h t) web host r >>= λ p. exchange web p (api_url h r))
        ≡ (prepare (with_token h u) web host r >>= λ p. exchange web p (api_url h r))
  unfolding exchange
  exchange-token host same = elim (prepare-token host) [
    | inl e ↦ rw e
    | inr (e, e') ↦ rw (e, e') (ap answered same)
  ]

  listing_of-token :
      web.send (bearer t) (api_url h r) ≡ web.send (bearer u) (api_url h r)
      → listing_of (with_token h t) web r ≡ listing_of (with_token h u) web r
  unfolding listing_of api_url base
  listing_of-token same =
      ap
        (λ (k : Bytes → Result HfError HfModel).
          valid_repo r.repo >>= λ v. request_for web (api_url h r) >>= k)
        (fun_ext (λ host. exchange-token host same))

-- A bearer token does not reach the answer: two configurations that differ in their tokens, neither
-- empty, answer alike for every reference, if the origin answers their requests alike.
pub resolve-token :
    (h : Hf) (web : Web) (r : Ref) (t u : Bytes)
    → t ≢ []
    → u ≢ []
    → web.send (bearer t) (api_url h r) ≡ web.send (bearer u) (api_url h r)
    → resolve (with_token h t) web r ≡ resolve (with_token h u) web r
unfolding resolve
resolve-token h web r t u nt nu same =
    ap₂ (λ (m : Result HfError HfModel) (k : HfModel → Result HfError Spec). m >>= k)
      (listing_of-token h web r t u nt nu same) (fun_ext (spec_from-token h web r t u nt nu))

applied-ok :
    (name : Bytes) (answer : Result ApplyError (List (Bytes × Bytes))) {p : Prepared}
    → applied name answer ≡ ok p
    → (p.follows ≡ false) × (answer ≡ ok p.headers)
applied-ok name (ok headers) {p} e = (ground arith, ground arith)
applied-ok name (err (typed x)) e = absurd (ground arith)
applied-ok name (err untyped) e = absurd (ground arith)

apply_credential-ok :
    (applier : Option CredentialHeaders) (host name : Bytes) {p : Prepared}
    → apply_credential applier host name ≡ ok p
    → (p.follows ≡ false)
      × ((apply : CredentialHeaders) × (applier ≡ some apply)
          × (apply name (to_lower host) ≡ ok p.headers))
unfolding apply_credential
apply_credential-ok none host name e = absurd (ground arith)
apply_credential-ok (some apply) host name {p} e =
    let (stays, same) = applied-ok name (apply name (to_lower host)) e in
    (stays, (apply, refl, same))

-- A request that applies a named credential carries exactly the headers that the context's applier
-- gave for the lower-cased host, and its client follows no redirect.
pub prepare-credential :
    (h : Hf) (web : Web) (host : Bytes) (r : Ref) {p : Prepared}
    → r.credential ≢ []
    → prepare h web host r ≡ ok p
    → (p.follows ≡ false)
      × ((apply : CredentialHeaders) × (web.applier ≡ some apply)
          × (apply r.credential (to_lower host) ≡ ok p.headers))
unfolding prepare
prepare-credential h web host r {p} n e =
    apply_credential-ok web.applier host r.credential (ground (arith, equal_iff r.credential []))
