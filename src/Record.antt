-- ===== src/Record.antt =====
-- go/abstraction/model/api/rec.go: what every generated object codec does the same way, the writer's
-- lines and the loop over the members of an object. The generated functions repeat this code with
-- their own fields in it, which here are an argument. `room` is how many containers may still be
-- opened: depthLimit less the depth. The depth is back where it was when a value has been read, so
-- `room` is passed down and not returned.
pub mod RoundTrip
pub mod Bounds
use abstraction_model.Base.{
  Bool, Bytes, List, Result, [], contains, drop, false, if◌then◌else◌, length, ok, suc, true, zero,
  ℕ, ◌&&◌, ◌++◌, ◌==◌, ◌>>=◌, ◌∷◌,
}
use abstraction_model.Codec.{Refusal, at, esc, refuse, skip_white, str}

-- pad.
unfoldable pub pad : ℕ → Bytes
pad zero = []
pad (suc depth) = 32 ∷ 32 ∷ pad depth

-- One member on a line of its own.
unfoldable pub line : ℕ → Bytes × Bytes → Bytes
line depth (name, value) = 10 ∷ (pad depth ++ (esc name ++ 58 ∷ 32 ∷ value))

-- The members, a comma before each but the first.
unfoldable pub more_lines : ℕ → List (Bytes × Bytes) → Bytes
more_lines depth [] = []
more_lines depth (m ∷ ms) = 44 ∷ (line depth m ++ more_lines depth ms)

unfoldable pub lines : ℕ → List (Bytes × Bytes) → Bytes
lines depth [] = []
lines depth (m ∷ ms) = line depth m ++ more_lines depth ms

unfoldable pub object : ℕ → List (Bytes × Bytes) → Bytes
object depth ms = b'{' ∷ (lines (suc depth) ms ++ 10 ∷ (pad depth ++ b'}' ∷ []))

unfoldable pub expect : ℕ → Bytes → Result Refusal Bytes
expect want s = if at s == want then ok (drop 1 s) else refuse "malformed" s

-- enter, from what is at the container's first byte, which it passes.
unfoldable pub enter : ℕ → Bytes → Result Refusal (ℕ × Bytes)
enter zero s = refuse "depth_exceeded" s
enter (suc room) s = ok (room, drop 1 s)

-- A key, its colon, and the white space behind them.
unfoldable pub key : Bytes → Result Refusal (Bytes × Bytes)
key s = elim (at s == 34) [
  | true ↦ do (name, t) ← str s; u ← expect b':' (skip_white t); ok (name, skip_white u)
  | false ↦ refuse "malformed" s
]

-- What reads the field of a key into the record: it refuses a key that it does not know.
abbrev pub Setter : Type 0 → Type 0
Setter V = Bytes → V → Bytes → Result Refusal (V × Bytes)

unfoldable pub all_seen : List Bytes → List Bytes → Bool
all_seen [] seen = true
all_seen (name ∷ names) seen = contains name seen && all_seen names seen

module _ {V : Type 0} where
  abbrev pub once : Setter V → List Bytes → Setter V
  once set seen name v s = if contains name seen then refuse "duplicate_field" s else set name v s

  -- The loop over the members; each round passes a byte at least.
  unfoldable pub members :
      ℕ → Setter V → List Bytes → V → Bytes → Result Refusal ((List Bytes × V) × Bytes)
  members zero set seen v s = refuse "fuel" s
  members (suc n) set seen v s = do
    (name, t) ← key (skip_white s)
    (w, u) ← once set seen name v t
    elim (at (skip_white u) == 44) [
      | true ↦ members n set (name ∷ seen) w (drop 1 (skip_white u))
      | false ↦ ok ((name ∷ seen, w), skip_white u)
    ]

  unfoldable pub body : Setter V → V → Bytes → Result Refusal ((List Bytes × V) × Bytes)
  body set v s = if at s == b'}' then ok (([], v), s) else members (suc (length s)) set [] v s

  unfoldable pub read_object :
      (ℕ → Setter V) → V → List Bytes → ℕ → Bytes → Result Refusal (V × Bytes)
  read_object set empty required room s = elim (at s == b'{') [
    | true ↦ do
      (inner, t) ← enter room s
      ((seen, v), u) ← body (set inner) empty (skip_white t)
      rest ← expect b'}' u
      if all_seen required seen then ok (v, rest) else refuse "missing_field" rest
    | false ↦ refuse "wrong_type" s
  ]
