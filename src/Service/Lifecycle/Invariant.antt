-- ===== src/Service/Lifecycle/Invariant.antt =====
-- What holds of a host however its calls, its loop and its workers interleave.
use mathlib.Core.Path.{subst, sym, ◌∙◌}
use abstraction_model.Base.{
  Bool-cases, Bytes, Option, arith, false, inl, inr, ltb, none, ok, refl, some, suc, sym, true,
  ◌||◌, ◌∙◌, ◌≡◌,
}
use abstraction_model.Credentials.{CredentialHeaders}
use abstraction_model.Service.{Decision}
use abstraction_model.Service.Lifecycle.{
  HostState, IsHostState, Reaches, Step, accept, accepts, begin_serve, closes, enable_credentials,
  enable_policy, finishes, here, leaves, listening, max_slots, returns, serves, sets_apply,
  sets_policy, there,
}

enable_policy-ok :
    (s : HostState) (p : Option (Bytes → Decision)) {t : HostState}
    → enable_policy s p ≡ ok t
    → (s.serving ≡ false) × (record s { policy = p } ≡ t)
unfolding enable_policy
enable_policy-ok s none e = elim (Bool-cases (s.serving || s.closed)) [
  | inl h ↦ absurd (ground arith)
  | inr h ↦ absurd (ground arith)
]
enable_policy-ok s (some policy) e = elim (Bool-cases (s.serving || s.closed)) [
  | inl h ↦ absurd (ground arith)
  | inr h ↦ (ground arith, ground arith)
]

enable_credentials-ok :
    (s : HostState) (a : Option (Bytes → Bytes → CredentialHeaders)) {t : HostState}
    → enable_credentials s a ≡ ok t
    → (s.serving ≡ false) × (record s { apply = a } ≡ t)
unfolding enable_credentials
enable_credentials-ok s none e = elim (Bool-cases (s.serving || s.closed)) [
  | inl h ↦ absurd (ground arith)
  | inr h ↦ absurd (ground arith)
]
enable_credentials-ok s (some apply) e = elim (Bool-cases (s.serving || s.closed)) [
  | inl h ↦ absurd (ground arith)
  | inr h ↦ (ground arith, ground arith)
]

begin_serve-ok :
    (s : HostState) {t : HostState}
    → begin_serve s ≡ ok t
    → (s.serving ≡ false) × (record s { serving = true; accepting = true } ≡ t)
unfolding begin_serve
begin_serve-ok s e = elim (Bool-cases s.serving) [
  | inl h ↦ absurd (ground arith)
  | inr h ↦ (h, ground arith)
]

accept-IsHostState : (s : HostState) → s.accepting ≡ true → IsHostState s → IsHostState (accept s)
unfolding accept
accept-IsHostState s a h = elim (Bool-cases (ltb s.slots max_slots)) [
  | inl k ↦ subst IsHostState (sym (taken k)) (record {
    slots_ok = ground arith;
    loop_in_serve = h.loop_in_serve;
    loop_or_closed = h.loop_or_closed;
    idle = (λ n. absurd (ground (arith, h.loop_in_serve a)));
    drained = (λ r. let (v, n, z, c) = h.drained r in absurd (ground arith));
  })
  | inr k ↦ subst IsHostState (sym (full k)) h
]
  where
    taken : ltb s.slots max_slots ≡ true → accept s ≡ record s { slots = suc s.slots }
    taken k = rw k

    full : ltb s.slots max_slots ≡ false → accept s ≡ s
    full k = rw k

Step-IsHostState : {s t : HostState} → Step s t → IsHostState s → IsHostState t
Step-IsHostState {s} (sets_policy p e) h = subst IsHostState (enable_policy-ok s p e).1 (record {
  slots_ok = h.slots_ok;
  loop_in_serve = h.loop_in_serve;
  loop_or_closed = h.loop_or_closed;
  idle = h.idle;
  drained = h.drained;
})
Step-IsHostState {s} (sets_apply a e) h =
    subst IsHostState (enable_credentials-ok s a e).1 (record {
      slots_ok = h.slots_ok;
      loop_in_serve = h.loop_in_serve;
      loop_or_closed = h.loop_or_closed;
      idle = h.idle;
      drained = h.drained;
    })
Step-IsHostState {s} (serves e) h =
    let (n, same) = begin_serve-ok s e in
    subst IsHostState same (record {
      slots_ok = h.slots_ok;
      loop_in_serve = (λ a. refl);
      loop_or_closed = (λ v. inl refl);
      idle = (λ v. absurd (ground arith));
      drained = (λ r. absurd (ground (arith, h.drained r)));
    })
Step-IsHostState {s} closes h = record {
  slots_ok = h.slots_ok;
  loop_in_serve = h.loop_in_serve;
  loop_or_closed = (λ v. inr refl);
  idle = h.idle;
  drained = (λ r. let (v, n, z, c) = h.drained r in (v, n, z, refl));
}
Step-IsHostState {s} (accepts a) h = accept-IsHostState s a h
Step-IsHostState {s} (leaves a) h = record {
  slots_ok = h.slots_ok;
  loop_in_serve = (λ e. absurd (ground arith));
  loop_or_closed = (λ v. inr refl);
  idle = h.idle;
  drained = (λ r. let (v, n, z, c) = h.drained r in (v, refl, z, refl));
}
Step-IsHostState {s} (finishes p) h =
    let bound_ok = h.slots_ok in
    record {
      slots_ok = omega arith;
      loop_in_serve = h.loop_in_serve;
      loop_or_closed = h.loop_or_closed;
      idle = (λ n. let z = h.idle n in omega arith);
      drained = (λ r. let (v, n, z, c) = h.drained r in absurd (omega arith));
    }
Step-IsHostState {s} (returns v n z) h = record {
  slots_ok = h.slots_ok;
  loop_in_serve = h.loop_in_serve;
  loop_or_closed = h.loop_or_closed;
  idle = h.idle;
  drained = (λ r. (v, n, z, ground (arith, h.loop_or_closed v)));
}

listening-IsHostState : IsHostState listening
listening-IsHostState = record {
  slots_ok = omega arith;
  loop_in_serve = (λ e. absurd (ground arith));
  loop_or_closed = (λ e. absurd (ground arith));
  idle = (λ e. refl);
  drained = (λ e. absurd (ground arith));
}

Reaches-IsHostState : {s t : HostState} → Reaches s t → IsHostState s → IsHostState t
Reaches-IsHostState here h = h
Reaches-IsHostState (there st more) h = Reaches-IsHostState more (Step-IsHostState st h)

-- However calls, connections and workers interleave from Listen on: at most 32 workers run, the loop
-- runs only inside Serve, no worker runs before it, and once Serve has returned the loop has ended,
-- no worker runs and the host is closed.
pub listening-Reaches : {s : HostState} → Reaches listening s → IsHostState s
listening-Reaches r = Reaches-IsHostState r listening-IsHostState

-- The configuration of a host, and whether it serves.
pub record SameSetup (s t : HostState) : Type 0 where
  pub policy_is : t.policy ≡ s.policy
  pub apply_is : t.apply ≡ s.apply
  pub serving_is : t.serving ≡ true

accept-SameSetup : (s : HostState) → s.serving ≡ true → SameSetup s (accept s)
unfolding accept
accept-SameSetup s v = elim (Bool-cases (ltb s.slots max_slots)) [
  | inl k ↦ record { policy_is = rw k; apply_is = rw k; serving_is = rw k v }
  | inr k ↦ record { policy_is = rw k; apply_is = rw k; serving_is = rw k v }
]

Step-SameSetup : {s t : HostState} → Step s t → s.serving ≡ true → SameSetup s t
Step-SameSetup {s} (sets_policy p e) v =
    let (n, same) = enable_policy-ok s p e in absurd (ground arith)
Step-SameSetup {s} (sets_apply a e) v =
    let (n, same) = enable_credentials-ok s a e in absurd (ground arith)
Step-SameSetup {s} (serves e) v = let (n, same) = begin_serve-ok s e in absurd (ground arith)
Step-SameSetup {s} closes v = record { policy_is = refl; apply_is = refl; serving_is = v }
Step-SameSetup {s} (accepts a) v = accept-SameSetup s v
Step-SameSetup {s} (leaves a) v = record { policy_is = refl; apply_is = refl; serving_is = v }
Step-SameSetup {s} (finishes p) v = record { policy_is = refl; apply_is = refl; serving_is = v }
Step-SameSetup {s} (returns u n z) v = record { policy_is = refl; apply_is = refl; serving_is = v }

-- From the start of Serve on, no step changes the policy or the credential applier, and the host
-- stays one that was served.
pub Reaches-SameSetup : {s t : HostState} → s.serving ≡ true → Reaches s t → SameSetup s t
Reaches-SameSetup v here = record { policy_is = refl; apply_is = refl; serving_is = v }
Reaches-SameSetup v (there st more) =
    let a = Step-SameSetup st v in
    let b = Reaches-SameSetup a.serving_is more in
    record {
      policy_is = b.policy_is ∙ a.policy_is;
      apply_is = b.apply_is ∙ a.apply_is;
      serving_is = b.serving_is;
    }
