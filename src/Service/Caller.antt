-- ===== src/Service/Caller.antt =====
-- The caller of go/service/service.go: who it is, and what the host's applier is bound to for it.
use mathlib.Core.Path.{sym, ap₂, subst, ◌∙◌}
use abstraction_model.Base.{
  Bool-cases, Bytes, Option, [], arith, equal, equal_iff, false, inl, inr, none, not, refl, some,
  sym, true, ℤ, ◌&&◌, ◌∙◌, ◌≡◌, ◌≢◌,
}
use abstraction_model.Credentials.{CredentialHeaders}
use abstraction_model.Ref.{Ref}
use abstraction_model.Registry.{Context}
use abstraction_model.Service.{
  Call, Host, User, account_of, authorized, bound, context_of, other_user, posix, principal,
  subject, subject_of, windows,
}

-- The user is the account that owns the host.
pub data IsOwner (h : Host) : User → Type 0 where
  by_sid : {sid : Bytes} → sid ≡ h.owner → IsOwner h (windows sid)
  by_uid : {uid : ℤ} → h.itoa uid ≡ h.owner → IsOwner h (posix uid)

-- The context that a lookup may use: no applier, or the host's, bound to its owner and to the program
-- that the call proves.
pub data IsBound (h : Host) (c : Call) (r : Ref) : Context → Type 0 where
  unnamed : r.credential ≡ [] → IsBound h c r none
  no_applier : r.credential ≢ [] → h.apply ≡ none → IsBound h c r none
  proved :
      (apply : Bytes → Bytes → CredentialHeaders) (program : Bytes)
      → r.credential ≢ []
      → h.apply ≡ some apply
      → c.rechecked ≡ true
      → c.program ≡ some program
      → h.is_abs program ≡ true
      → IsBound h c r (some (apply h.owner (h.clean program)))

principal-IsOwner :
    (h : Host) (u : User)
    → not (equal (principal h u) []) && equal (principal h u) h.owner ≡ true
    → IsOwner h u × (h.owner ≢ [])
principal-IsOwner h (windows sid) e =
    let same : sid ≡ h.owner = ground (arith, equal_iff sid h.owner) in
    (by_sid same, (λ n. ground (arith, equal_iff sid [], same, n)))
principal-IsOwner h (posix uid) e =
    let same : h.itoa uid ≡ h.owner = ground (arith, equal_iff (h.itoa uid) h.owner) in
    (by_uid same, (λ n. ground (arith, equal_iff (h.itoa uid) [], same, n)))
principal-IsOwner h other_user e = absurd (ground (arith, equal_iff [] []))

pub authorized-IsOwner :
    (h : Host) (c : Call)
    → authorized h c ≡ true
    → (c.has_peer ≡ true) × ((u : User) × (c.user ≡ some u) × IsOwner h u × (h.owner ≢ []))
unfolding authorized
authorized-IsOwner h c e = elim (Bool-cases c.has_peer) [
  | inl k ↦ (k, user_of c.user refl (rw k at e))
  | inr k ↦ absurd (ground arith)
]
  where
    user_of :
        (x : Option User)
        → c.user ≡ x
        → (elim x [
          | none ↦ false
          | some u ↦ not (equal (principal h u) []) && equal (principal h u) h.owner
        ])
          ≡ true
        → (u : User) × (c.user ≡ some u) × IsOwner h u × (h.owner ≢ [])
    user_of none same e = absurd (ground arith)
    user_of (some u) same e =
        let (owns, has_name) = principal-IsOwner h u e in (u, same, owns, has_name)

pub context_of-bound :
    (h : Host) (c : Call) (r : Ref)
    → r.credential ≢ []
    → context_of h c r ≡ bound h.apply (subject h c)
unfolding context_of
context_of-bound h c r n = ground (arith, equal_iff r.credential [])

pub bound-some :
    (apply : Bytes → Bytes → CredentialHeaders) (who : Option (Bytes × Bytes)) {ctx : Context}
    → bound (some apply) who ≡ some ctx
    → (account : Bytes) × (program : Bytes) × (who ≡ some (account, program))
      × (ctx ≡ some (apply account program))
bound-some apply none e = absurd (ground arith)
bound-some apply (some (account, program)) e = (account, program, refl, ground arith)

-- A subject is the host's owner and the cleaned place of a program that the call names.
subject_of-some :
    (h : Host) (u : Option User) (p : Option Bytes) {account program : Bytes}
    → subject_of h u p ≡ some (account, program)
    → (account ≡ h.owner)
      × ((place : Bytes) × (p ≡ some place) × (h.is_abs place ≡ true) × (program ≡ h.clean place))
subject_of-some h none p e = absurd (ground arith)
subject_of-some h (some u) none e = absurd (ground arith)
subject_of-some h (some u) (some p) {account} e =
    (ground (arith, equal_iff (account_of h u) h.owner), (p, refl, ground arith, ground arith))

pub subject-some :
    (h : Host) (c : Call) {account program : Bytes}
    → subject h c ≡ some (account, program)
    → (account ≡ h.owner)
      × (c.rechecked ≡ true)
      × ((place : Bytes) × (c.program ≡ some place)
          × (h.is_abs place ≡ true)
          × (program ≡ h.clean place))
unfolding subject
subject-some h c e = elim (Bool-cases (c.has_peer && c.rechecked)) [
  | inl k ↦
      let (own, whence) = subject_of-some h c.user c.program (rw k at e) in
      (own, ground arith, whence)
  | inr k ↦ absurd (ground arith)
]

bound-IsBound :
    (h : Host) (c : Call) (r : Ref) (x : Option (Bytes → Bytes → CredentialHeaders)) {ctx : Context}
    → r.credential ≢ []
    → h.apply ≡ x
    → bound x (subject h c) ≡ some ctx
    → IsBound h c r ctx
bound-IsBound h c r none {ctx} named set e =
    let none_is : none ≡ ctx = ground (arith, e) in
    subst (IsBound h c r) none_is (no_applier named set)
bound-IsBound h c r (some apply) named set e =
    let (account, program, who, ctx_is) = bound-some apply (subject h c) e in
    let (own, rechecked, (place, named_place, absolute, cleaned)) = subject-some h c who in
    subst (IsBound h c r) (ap₂ (λ a p. some (apply a p)) (sym own) (sym cleaned) ∙ sym ctx_is)
      (proved apply place named set rechecked named_place absolute)

pub context_of-IsBound :
    (h : Host) (c : Call) (r : Ref) {ctx : Context}
    → context_of h c r ≡ some ctx
    → IsBound h c r ctx
context_of-IsBound h c r {ctx} e = elim (Bool-cases (equal r.credential [])) [
  | inl k ↦
      let none_is : none ≡ ctx = unfold context_of in ground (arith, e, k) in
      subst (IsBound h c r) none_is (unnamed ((equal_iff r.credential []).0 k))
  | inr k ↦
      let named : r.credential ≢ [] = λ n. ground (arith, k, equal_iff r.credential [], n) in
      bound-IsBound h c r h.apply named refl (sym (context_of-bound h c r named) ∙ e)
]
