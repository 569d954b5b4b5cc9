-- ===== src/Number.antt =====
-- go/abstraction/model/api/rec.go: num, and the reader's integer, boolean and literal.
pub mod RoundTrip
pub mod Bounds
pub mod Within
use abstraction_model.Base.{
  Bool, Bytes, Option, Result, [], codes, drop, equal, err, false, if◌then◌else◌, leb, length, ltb,
  negsuc, none, not, ok, pos, some, suc, take, true, zero, ℕ, ℤ, ◌%◌, ◌&&◌, ◌*◌, ◌+◌, ◌-◌, ◌/◌,
  ◌==◌, ◌>>=◌, ◌^◌, ◌||◌, ◌∷◌,
}
use abstraction_model.Codec.{Refusal, at, refuse}

-- The loop over the 24 bytes of `d`; an int64 has 19 digits at most.
unfoldable pub digits : ℕ → ℕ → Bytes → Bytes
digits zero u out = out
digits (suc k) u out = elim (u == 0) [
  | true ↦ out
  | false ↦ digits k (u / 10) ((b'0' + u % 10) ∷ out)
]

-- num, of an int64.
unfoldable pub num : ℤ → Bytes
num (pos zero) = b'0' ∷ []
num (pos (suc n)) = digits 24 (suc n) []
num (negsuc n) = b'-' ∷ digits 24 (suc n) []

unfoldable pub is_digit : ℕ → Bool
is_digit c = leb b'0' c && leb c b'9'

-- The loop over the digits, on a uint64.
unfoldable pub more_digits : ℕ → Bytes → Result Refusal (ℕ × Bytes)
more_digits u [] = ok (u, [])
more_digits u (c ∷ s) = elim (is_digit c) [
  | true ↦ elim (ltb 922337203685477580 u) [
    | true ↦ refuse "number_spelling" (c ∷ s)
    | false ↦ more_digits ((u * 10 + (c - b'0')) % 2 ^ 64) s
  ]
  | false ↦ ok (u, c ∷ s)
]

unfoldable pub magnitude : Bytes → Result Refusal (ℕ × Bytes)
magnitude s =
    if not (is_digit (at s))
    then refuse "malformed" s
    else if at s == b'0'
    then ok (0, drop 1 s)
    else more_digits 0 s

unfoldable pub goes_on : ℕ → Bool
goes_on c = c == b'.' || c == b'e' || c == b'E' || is_digit c

abbrev pub minus : ℕ → ℤ
minus zero = pos 0
minus (suc n) = negsuc n

-- The last switch: the int64 that a sign and a magnitude stand for.
unfoldable pub signed : Bool → ℕ → Option ℤ
signed neg u =
    if neg && u == 2 ^ 63
    then some (negsuc (2 ^ 63 - 1))
    else if ltb (2 ^ 63 - 1) u
    then none
    else if neg
    then some (minus u)
    else some (pos u)

-- `a < b`.
unfoldable pub less : ℤ → ℤ → Bool
less (pos a) (pos b) = ltb a b
less (pos a) (negsuc b) = false
less (negsuc a) (pos b) = true
less (negsuc a) (negsuc b) = ltb b a

abbrev pub between : ℤ → ℤ → Bytes → Option ℤ → Result Refusal (ℤ × Bytes)
between low high s none = refuse "number_spelling" s
between low high s (some n) =
    if less n low || less high n then refuse "number_spelling" s else ok (n, s)

-- What integer does with a magnitude that was read.
unfoldable pub finish : ℤ → ℤ → Bool → ℕ × Bytes → Result Refusal (ℤ × Bytes)
finish low high neg (u, t) =
    if goes_on (at t)
    then refuse "number_spelling" t
    else if neg && u == 0
    then refuse "number_spelling" t
    else between low high t (signed neg u)

unfoldable pub integer : ℤ → ℤ → Bytes → Result Refusal (ℤ × Bytes)
integer low high s =
    let neg = at s == b'-' in
    if not neg && not (is_digit (at s))
    then refuse "wrong_type" s
    else magnitude (if neg then drop 1 s else s) >>= finish low high neg

unfoldable pub literal : Bytes → Bytes → Result Refusal Bytes
literal word s =
    if equal (take (length word) s) word then ok (drop (length word) s) else refuse "malformed" s

abbrev pub reads_as : Bool → Result Refusal Bytes → Result Refusal (Bool × Bytes)
reads_as b (ok rest) = ok (b, rest)
reads_as b (err e) = err e

unfoldable pub boolean : Bytes → Result Refusal (Bool × Bytes)
boolean s =
    if at s == b't'
    then reads_as true (literal (codes "true") s)
    else if at s == b'f'
    then reads_as false (literal (codes "false") s)
    else refuse "wrong_type" s
