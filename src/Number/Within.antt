-- ===== src/Number/Within.antt =====
-- The readers of numbers and words stay within the buffer, whatever it holds.
use Prim.Native.Nat.{◌≤◌}
use abstraction_model.Base.{
  Bool, Bytes, Option, Result, [], arith, codes, contains, drop, equal, err, false, if◌then◌else◌,
  length, ltb, none, not, ok, refl, some, suc, take, true, ℕ, ℤ, ◌%◌, ◌&&◌, ◌*◌, ◌+◌, ◌-◌, ◌==◌,
  ◌^◌, ◌||◌, ◌∷◌, ◌≤◌,
}
use abstraction_model.Codec.{Refusal, at}
use abstraction_model.Codec.Bounds.{
  >>=-Within, Within, Within-≤, behind, elim-Within, if-Within, length-drop,
}
use abstraction_model.Record.Bounds.{all_of, length-drop_one}
use abstraction_model.Number.{
  between, boolean, finish, goes_on, integer, is_digit, less, literal, magnitude, more_digits,
  reads_as, signed,
}

pub literal-Within : (word s : Bytes) → Within all_of (length s) (literal word s)
unfolding literal contains equal
literal-Within word s =
    if-Within all_of (length s) (equal (take (length word) s) word) _ _
      (length-drop (length word) s) (refl, omega arith)

reads_as-Within :
    (b : Bool) (n : ℕ) (r : Result Refusal Bytes)
    → Within all_of n r
    → Within behind n (reads_as b r)
reads_as-Within b n (ok rest) w = w
reads_as-Within b n (err e) w = w

pub boolean-Within : (s : Bytes) → Within behind (length s) (boolean s)
unfolding boolean contains equal
boolean-Within s =
    if-Within behind (length s) (at s == b't') _ _
      (reads_as-Within true (length s) _ (literal-Within (codes "true") s))
      (if-Within behind (length s) (at s == b'f') _ _
        (reads_as-Within false (length s) _ (literal-Within (codes "false") s)) (refl, omega arith))

more_digits-Within : (u : ℕ) (s : Bytes) → Within behind (length s) (more_digits u s)
unfolding more_digits contains equal
more_digits-Within u [] = omega arith
more_digits-Within u (c ∷ s) =
    elim-Within behind (suc (length s)) (is_digit c) _ _
      (λ _.
        elim-Within behind (suc (length s)) (ltb 922337203685477580 u) _ _
          (λ _. (refl, omega arith))
          (λ _.
            let next = (u * 10 + (c - b'0')) % 2 ^ 64 in
            Within-≤ behind (more_digits next s) (omega arith) (more_digits-Within next s)))
      (λ _. omega arith)

magnitude-Within : (s : Bytes) → Within behind (length s) (magnitude s)
unfolding magnitude contains equal
magnitude-Within s =
    if-Within behind (length s) (not (is_digit (at s))) _ _ (refl, omega arith)
      (if-Within behind (length s) (at s == b'0') _ _ (length-drop_one s) (more_digits-Within 0 s))

between-Within :
    (low high : ℤ) (s : Bytes) (o : Option ℤ) → Within behind (length s) (between low high s o)
unfolding contains equal
between-Within low high s none = (refl, omega arith)
between-Within low high s (some n) =
    if-Within behind (length s) (less n low || less high n) _ _ (refl, omega arith) (omega arith)

finish-Within :
    (low high : ℤ) (neg : Bool) (p : ℕ × Bytes) → Within behind (length p.1) (finish low high neg p)
unfolding finish contains equal
finish-Within low high neg (u, t) =
    if-Within behind (length t) (goes_on (at t)) _ _ (refl, omega arith)
      (if-Within behind (length t) (neg && u == 0) _ _ (refl, omega arith)
        (between-Within low high t (signed neg u)))

pub integer-Within : (low high : ℤ) (s : Bytes) → Within behind (length s) (integer low high s)
unfolding integer contains equal
integer-Within low high s =
    let neg = at s == b'-' in
    let t = if neg then drop 1 s else s in
    let shorter : length t ≤ length s =
      elim neg as (λ b. length (if b then drop 1 s else s) ≤ length s) [
        | true ↦ length-drop_one s
        | false ↦ omega arith
      ] in
    if-Within behind (length s) (not neg && not (is_digit (at s))) _ _ (refl, omega arith)
      (>>=-Within behind behind (length s) (magnitude t) (finish low high neg)
        (Within-≤ behind (magnitude t) shorter (magnitude-Within t))
        λ p _. finish-Within low high neg p)
