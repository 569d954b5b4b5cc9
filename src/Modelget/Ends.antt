-- ===== src/Modelget/Ends.antt =====
-- The loop of parse ends.
use Prim.Native.Nat.{◌≤◌}
use abstraction_model.Base.{
  Bool, Bool-cases, Bytes, List, Result, [], arith, equal, err, false, inl, inr, length, ltb, not,
  ok, refl, suc, true, zero, ℕ, ◌&&◌, ◌++◌, ◌<◌, ◌>>=◌, ◌∷◌, ◌≡◌, ◌≤◌,
}
use abstraction_model.Modelget.{
  ArgError, FlagError, Flags, blank_of, counted, empty_argument, flagged, gather, needs, not_known,
  of_flags, out_of_rounds, parse, takes_rest, unless_blank, wants_value,
}
use abstraction_model.Modelget.Accepts.{turn}

-- What is asked of fs.Parse: it leaves no more arguments than it is given.
abbrev pub IsShrinking : {S : Type 0} → Flags S → Type 0
IsShrinking {S} flags =
    (fs next : S) (args left : List Bytes)
    → flags.parse_flags fs args ≡ ok (next, left)
    → length left ≤ length args

abbrev pub is_out : {A : Type 0} → Result ArgError A → Bool
is_out (err out_of_rounds) = true
is_out _ = false

turn_out :
    {S : Type 0} (flags : Flags S) (n : ℕ) (before : List Bytes) (mid : S) (left : List Bytes)
    → ((found more : List Bytes)
        → length more < length left
        → is_out (gather flags n mid found more) ≡ false)
    → is_out (turn flags n before mid left) ≡ false
turn_out flags n before mid [] later = refl
turn_out flags n before mid (a ∷ more) later =
    elim (equal a [])
      as (λ b.
        is_out (elim b [
          | true ↦ err empty_argument
          | false ↦ gather flags n mid (before ++ a ∷ []) more
        ])
        ≡ false) [ true ↦ refl | false ↦ later (before ++ a ∷ []) more (omega arith) ]

gather-ends :
    {S : Type 0} (flags : Flags S) (n : ℕ) (fs : S) (before args : List Bytes)
    → IsShrinking flags
    → length args < n
    → is_out (gather flags n fs before args) ≡ false
unfolding gather
gather-ends flags zero fs before args shrinks fuel = absurd (omega (arith, fuel))
gather-ends {S} flags (suc n) fs before args shrinks fuel =
    elim (flags.parse_flags fs args)
        as (λ (r : Result FlagError (S × List Bytes)).
          flags.parse_flags fs args ≡ r
          → is_out (flagged r >>= (λ p. turn flags n before p.0 p.1)) ≡ false) [
            | err e ↦ λ same. refl
            | ok (mid, left) ↦ λ same. turn_out flags n before mid left λ found more fewer.
                gather-ends flags n mid found more shrinks
                  (omega (arith, fewer, fuel, shrinks fs mid args left same))
          ]
      refl

counted_out : (want given : List Bytes) → is_out (counted want given) ≡ false
unfolding counted
counted_out want given = elim (Bool-cases (ltb (length given) (length want))) [
  | inl e ↦ rw e refl
  | inr e ↦ elim (Bool-cases (ltb (length want) (length given) && not (takes_rest want))) [
    | inl f ↦ rw (e, f) refl
    | inr f ↦ rw (e, f) refl
  ]
]

>>=-is_out :
    {A B : Type 0} (first : Result ArgError A) (next : A → Result ArgError B)
    → is_out first ≡ false
    → ((a : A) → is_out (next a) ≡ false)
    → is_out (first >>= next) ≡ false
>>=-is_out (ok a) next h k = k a
>>=-is_out (err (of_flags e)) next h k = refl
>>=-is_out (err empty_argument) next h k = refl
>>=-is_out (err (needs w)) next h k = refl
>>=-is_out (err (not_known w)) next h k = refl
>>=-is_out (err (wants_value w)) next h k = refl
>>=-is_out (err out_of_rounds) next h k = h

unless_blank_out : (blank : Bytes) (given : List Bytes) → is_out (unless_blank blank given) ≡ false
unless_blank_out [] given = refl
unless_blank_out (c ∷ name) given = refl

-- The loop of parse ends on every command line, where fs.Parse leaves no more arguments than it is
-- given: the rounds that the model allows do not run out.
pub parse-ends :
    {S : Type 0} (flags : Flags S) (fs : S) (args want : List Bytes)
    → IsShrinking flags
    → is_out (parse flags fs args want) ≡ false
unfolding parse
parse-ends flags fs args want shrinks =
    >>=-is_out (gather flags (suc (length args)) fs [] args) _
      (gather-ends flags (suc (length args)) fs [] args shrinks (omega arith))
      λ p.
        >>=-is_out (counted want p.1) _ (counted_out want p.1)
          λ all. unless_blank_out (blank_of [] (flags.visited p.0)) all
