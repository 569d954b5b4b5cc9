-- ===== src/Service/Lifecycle.antt =====
-- The host of go/service/service.go: its configuration, its accept loop and its workers, as steps on
-- the state that they share. Each step is one critical section under the lifecycle lock, or one
-- event of the loop or of a worker.
pub mod Invariant
use abstraction_model.Base.{
  Bool, Bytes, Option, Result, err, false, if◌then◌else◌, ltb, none, ok, some, suc, true, ℕ, ◌-◌,
  ◌<◌, ◌||◌, ◌≡◌, ◌≤◌, ◌⊎◌,
}
use abstraction_model.Credentials.{CredentialHeaders}
use abstraction_model.Service.{Decision}

-- The fields of Host that change: `closed` is the host's context cancelled and its listener closed,
-- `accepting` holds while Serve is in its loop, `returned` once Serve has returned, and `slots` counts
-- the running workers.
pub record HostState : Type 0 where
  pub policy : Option (Bytes → Decision)
  pub apply : Option (Bytes → Bytes → CredentialHeaders)
  pub serving : Bool
  pub closed : Bool
  pub accepting : Bool
  pub returned : Bool
  pub slots : ℕ

-- What Listen answers.
abbrev pub listening : HostState
listening = record {
  policy = none;
  apply = none;
  serving = false;
  closed = false;
  accepting = false;
  returned = false;
  slots = 0;
}

pub data HostError : Type 0 where
  before_serve explicit_required already_served : HostError

unfoldable pub enable_policy : HostState → Option (Bytes → Decision) → Result HostError HostState
enable_policy s none = if s.serving || s.closed then err before_serve else err explicit_required
enable_policy s (some policy) =
    if s.serving || s.closed then err before_serve else ok (record s { policy = some policy })

unfoldable pub enable_credentials :
    HostState → Option (Bytes → Bytes → CredentialHeaders) → Result HostError HostState
enable_credentials s none =
    if s.serving || s.closed then err before_serve else err explicit_required
enable_credentials s (some apply) =
    if s.serving || s.closed then err before_serve else ok (record s { apply = some apply })

-- Close, on a host that may be closed already.
abbrev pub close : HostState → HostState
close s = record s { closed = true }

-- The start of Serve.
unfoldable pub begin_serve : HostState → Result HostError HostState
begin_serve s =
    if s.serving then err already_served else ok (record s { serving = true; accepting = true })

abbrev pub max_slots : ℕ
max_slots = 32

-- A connection: a worker starts if a slot is free, else the connection is closed.
unfoldable pub accept : HostState → HostState
accept s = if ltb s.slots max_slots then record s { slots = suc s.slots } else s

-- Accept failed: the loop ends, and Serve closes the host.
abbrev pub leave_loop : HostState → HostState
leave_loop s = record s { accepting = false; closed = true }

-- A worker gives its slot back.
abbrev pub finish : HostState → HostState
finish s = record s { slots = s.slots - 1 }

-- Serve returns when every worker is done.
abbrev pub return_serve : HostState → HostState
return_serve s = record s { returned = true }

pub data Step : HostState → HostState → Type 0 where
  sets_policy :
      {s t : HostState} (p : Option (Bytes → Decision)) → enable_policy s p ≡ ok t → Step s t
  sets_apply :
      {s t : HostState} (a : Option (Bytes → Bytes → CredentialHeaders))
      → enable_credentials s a ≡ ok t
      → Step s t
  serves : {s t : HostState} → begin_serve s ≡ ok t → Step s t
  closes : {s : HostState} → Step s (close s)
  accepts : {s : HostState} → s.accepting ≡ true → Step s (accept s)
  leaves : {s : HostState} → s.accepting ≡ true → Step s (leave_loop s)
  finishes : {s : HostState} → 0 < s.slots → Step s (finish s)
  returns :
      {s : HostState}
      → s.serving ≡ true
      → s.accepting ≡ false
      → s.slots ≡ 0
      → Step s (return_serve s)

pub data Reaches : HostState → HostState → Type 0 where
  here : {s : HostState} → Reaches s s
  there : {s t u : HostState} → Step s t → Reaches t u → Reaches s u

-- A host that is well formed: no worker beyond the slots, no loop outside Serve, and once Serve has
-- returned no loop, no worker, and the host closed.
pub record IsHostState (s : HostState) : Type 0 where
  pub slots_ok : s.slots ≤ max_slots
  pub loop_in_serve : s.accepting ≡ true → s.serving ≡ true
  pub loop_or_closed : s.serving ≡ true → (s.accepting ≡ true) ⊎ (s.closed ≡ true)
  pub idle : s.serving ≡ false → s.slots ≡ 0
  pub drained :
      s.returned ≡ true
      → (s.serving ≡ true) × (s.accepting ≡ false) × (s.slots ≡ 0) × (s.closed ≡ true)
