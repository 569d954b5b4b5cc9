-- ===== src/Service/Receiver.antt =====
-- Who gets an answer.
use mathlib.Core.Path.{sym, ap, ◌∙◌}
use abstraction_model.Base.{
  Bool, Bool-cases, Bytes, Option, [], ap, arith, false, if◌then◌else◌, inl, inr, none, refl, some,
  sym, true, ◌∙◌, ◌≡◌, ◌≢◌,
}
use abstraction_model.Ref.{Ref}
use abstraction_model.Registry.{Context}
use abstraction_model.Wire.{LookupOutcome, PortableRequest, forbidden}
use abstraction_model.Service.Caller.{IsBound, IsOwner, authorized-IsOwner, context_of-IsBound}
use abstraction_model.Service.Lookup.{IsLookup, lookup-IsLookup}
use abstraction_model.Service.{
  Call, Decision, Host, Outside, User, after_policy, allowed, answer_in, authorized, context_of,
  decided, denied, lookup, policy_unavailable, receive, stopped,
}

-- The policy of the host, if it has one, allowed the call for the registry, and in time.
abbrev pub Allowed : Option (Bytes → Decision) → Bool → Bytes → Type 0
Allowed none expired scheme = Unit
Allowed (some policy) expired scheme = (expired ≡ false) × (policy scheme ≡ allowed)

-- What a request that Resolve hands out rests on.
pub record IsAdmitted (o : Outside) (h : Host) (c : Call) (r : Ref) (q : PortableRequest)
    : Type 0 where
  pub has_peer : c.has_peer ≡ true
  pub user : User
  pub user_is : c.user ≡ some user
  pub owner_calls : IsOwner h user
  pub owner_ne_nil : h.owner ≢ []
  pub allowed_by : Allowed h.policy c.expired r.registry
  pub ctx : Context
  pub bound_to : IsBound h c r ctx
  pub looked_up : IsLookup o ctx h.registry r q

decided-none :
    (expired : Bool) (d : Decision) → decided expired d ≡ none → (expired ≡ false) × (d ≡ allowed)
decided-none true d e = absurd (ground arith)
decided-none false allowed e = (refl, refl)
decided-none false policy_unavailable e = absurd (ground arith)
decided-none false denied e = absurd (ground arith)

stopped-none :
    (h : Host) (c : Call) (scheme : Bytes)
    → stopped h c scheme ≡ none
    → Allowed h.policy c.expired scheme
unfolding stopped
stopped-none h c scheme e = allowed_by h.policy e
  where
    allowed_by :
        (p : Option (Bytes → Decision))
        → (elim p [
          | none ↦ none
          | some policy ↦ if c.has_peer then decided c.expired (policy scheme) else some forbidden
        ])
          ≡ none
        → Allowed p c.expired scheme
    allowed_by none e = tt
    allowed_by (some policy) e = elim (Bool-cases c.has_peer) [
      | inl k ↦ decided-none c.expired (policy scheme) (rw k at e)
      | inr k ↦ absurd (ground arith)
    ]

after_policy-request :
    (o : Outside) (h : Host) (c : Call) (r : Ref) (s : Option LookupOutcome) (q : PortableRequest)
    → (after_policy o h c r s).request ≡ some q
    → (s ≡ none) × ((answer_in o h r (context_of h c r)).request ≡ some q)
after_policy-request o h c r none q e = (refl, e)
after_policy-request o h c r (some outcome) q e = absurd (ground arith)

answer_in-request :
    (o : Outside) (h : Host) (r : Ref) (x : Option Context) (q : PortableRequest)
    → (answer_in o h r x).request ≡ some q
    → (ctx : Context) × (x ≡ some ctx) × ((lookup o ctx h.registry r).request ≡ some q)
answer_in-request o h r none q e = absurd (ground arith)
answer_in-request o h r (some ctx) q e = (ctx, refl, e)

receive-request :
    (o : Outside) (h : Host) (c : Call) (r : Ref) (q : PortableRequest)
    → (receive o h c r).request ≡ some q
    → (authorized h c ≡ true) × ((after_policy o h c r (stopped h c r.registry)).request ≡ some q)
unfolding receive
receive-request o h c r q e = elim (Bool-cases (authorized h c)) [
  | inl k ↦ (k, rw k at e)
  | inr k ↦ absurd (ground arith)
]

-- Resolve hands out a request only to a peer whose user is the account that owns the host, which has a
-- name, and which the policy, where there is one, allowed in time; what it hands out is a lookup's, with
-- no applier, or with the host's applier bound to that owner and to the program that the call proves.
pub receive-IsAdmitted :
    (o : Outside) (h : Host) (c : Call) (r : Ref) {q : PortableRequest}
    → (receive o h c r).request ≡ some q
    → IsAdmitted o h c r q
receive-IsAdmitted o h c r {q} e =
    let (admitted, e1) = receive-request o h c r q e in
    let (passed, e2) = after_policy-request o h c r (stopped h c r.registry) q e1 in
    let (ctx, same, found) = answer_in-request o h r (context_of h c r) q e2 in
    let (peer, (user, is_user, owns, has_name)) = authorized-IsOwner h c admitted in
    record {
      has_peer = peer;
      user = user;
      user_is = is_user;
      owner_calls = owns;
      owner_ne_nil = has_name;
      allowed_by = stopped-none h c r.registry passed;
      ctx = ctx;
      bound_to = context_of-IsBound h c r same;
      looked_up = lookup-IsLookup o ctx h.registry r found;
    }
