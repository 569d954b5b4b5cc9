-- ===== src/Modelget/Accepts.antt =====
-- What the command line that parse accepts is like, and that parse ends.
use mathlib.Core.Path.{subst, sym, ◌∙◌}
use Prim.Native.Nat.{◌≤◌}
use abstraction_model.Base.{
  >>=-eq-ok, All, All-append, Bool-cases, Bytes, List, Result, [], ap, arith, equal, err, false,
  inl, inr, length, ltb, not, ok, refl, suc, sym, true, zero, ℕ, ◌&&◌, ◌++◌, ◌∙◌, ◌∷◌, ◌≡◌, ◌≤◌,
  ◌⊎◌,
}
use abstraction_model.Modelget.{
  ArgError, Flags, blank_of, counted, empty_argument, flagged, gather, parse, takes_rest,
  unless_blank,
}

-- Positional arguments: none of them is empty.
abbrev pub NoneEmpty : List Bytes → Type 0
NoneEmpty = All (λ a. equal a [] ≡ false)

-- Flags with names, and flags with values.
abbrev pub IsNamed : List (Bytes × Bytes) → Type 0
IsNamed = All (λ f. equal f.0 [] ≡ false)

abbrev pub NoneBlank : List (Bytes × Bytes) → Type 0
NoneBlank = All (λ f. equal f.1 [] ≡ false)

module _ {S : Type 0} (flags : Flags S) where
  -- What the loop does with the arguments that a round leaves.
  abbrev pub turn : ℕ → List Bytes → S → List Bytes → Result ArgError (S × List Bytes)
  turn n before mid left = elim left [
    | [] ↦ ok (mid, before)
    | (a ∷ more) ↦ elim (equal a []) [
      | true ↦ err empty_argument
      | false ↦ gather flags n mid (before ++ a ∷ []) more
    ]
  ]

  gather-turn :
      (n : ℕ) (fs : S) (before args : List Bytes) {result : S × List Bytes}
      → gather flags (suc n) fs before args ≡ ok result
      → (p : S × List Bytes) × (flagged (flags.parse_flags fs args) ≡ ok p)
        × (turn n before p.0 p.1 ≡ ok result)
  unfolding gather
  gather-turn n fs before args same =
      >>=-eq-ok (flagged (flags.parse_flags fs args)) (λ p. turn n before p.0 p.1) same

  turn-ok :
      (n : ℕ) (before : List Bytes) (mid : S) (left : List Bytes) {next : S} {found : List Bytes}
      → turn n before mid left ≡ ok (next, found)
      → (before ≡ found)
        ⊎ ((a : Bytes) × (more : List Bytes) × (equal a [] ≡ false)
            × (gather flags n mid (before ++ a ∷ []) more ≡ ok (next, found)))
  turn-ok n before mid [] same = inl (cc)
  turn-ok n before mid (a ∷ more) same = elim (Bool-cases (equal a [])) [
    | inl e ↦ absurd (grind (arith, same, e))
    | inr e ↦ inr (a, more, e, grind (arith, same, e))
  ]

  gather-NoneEmpty :
      (n : ℕ) (fs : S) (before args : List Bytes) {next : S} {found : List Bytes}
      → NoneEmpty before
      → gather flags n fs before args ≡ ok (next, found)
      → NoneEmpty found
  unfolding gather
  gather-NoneEmpty zero fs before args fine same = cc
  gather-NoneEmpty (suc n) fs before args fine same =
      let (p, read, rest) = gather-turn n fs before args same in
      elim (turn-ok n before p.0 p.1 rest) [
        | inl kept ↦ subst NoneEmpty kept fine
        | inr (a, more, e, later) ↦
            gather-NoneEmpty n p.0 (before ++ a ∷ []) more
              (All-append (λ b. equal b [] ≡ false) before (a ∷ []) fine (e, tt)) later
      ]

-- Once a flag is found blank, one stays found.
blank_of-cons :
    (blank : Bytes) (fs : List (Bytes × Bytes))
    → equal blank [] ≡ false
    → IsNamed fs
    → equal (blank_of blank fs) [] ≡ false
blank_of-cons blank [] some_blank named = some_blank
blank_of-cons blank ((name, value) ∷ fs) some_blank (here, named) =
    elim (Bool-cases (equal value [])) [
      | inl e ↦ rw e (blank_of-cons name fs here named)
      | inr e ↦ rw e (blank_of-cons blank fs some_blank named)
    ]

blank_of-nil :
    (blank : Bytes) (fs : List (Bytes × Bytes))
    → IsNamed fs
    → equal (blank_of blank fs) [] ≡ true
    → NoneBlank fs
blank_of-nil blank [] named same = tt
blank_of-nil blank ((name, value) ∷ fs) (here, named) same = elim (Bool-cases (equal value [])) [
  | inl e ↦ let same' = rw e at same in absurd (cc (sym (blank_of-cons name fs here named) ∙ same'))
  | inr e ↦ (e, blank_of-nil blank fs named (rw e at same))
]

counted-ok :
    (want given : List Bytes) {found : List Bytes}
    → counted want given ≡ ok found
    → (given ≡ found)
      × (length want ≤ length found)
      × ((takes_rest want ≡ false) → length found ≡ length want)
unfolding counted
counted-ok want given {found} same = elim (Bool-cases (ltb (length given) (length want))) [
  | inl e ↦ absurd (grind (arith, counted, same, e))
  | inr e ↦ elim (Bool-cases (ltb (length want) (length given) && not (takes_rest want))) [
    | inl f ↦ absurd (grind (arith, counted, same, e, f))
    | inr f ↦
        let kept : given ≡ found = grind (arith, counted, same, e, f) in
        (
          kept,
          subst (λ xs. length want ≤ length xs) kept (ground arith),
          λ fixed. subst (λ xs. length xs ≡ length want) kept (ground (arith, e, f, fixed)),
        )
  ]
]

unless_blank-ok :
    (blank : Bytes) (given : List Bytes) {found : List Bytes}
    → unless_blank blank given ≡ ok found
    → (equal blank [] ≡ true) × (given ≡ found)
unfolding equal
unless_blank-ok [] given same = (refl, cc)
unless_blank-ok (c ∷ name) given same = absurd (cc)

-- What a command line that parse accepts is like: no positional argument is empty, there are as many as
-- the command names, or more where its last takes the rest, and no flag that was set has an empty
-- value, where flags have names.
pub parse-IsAccepted :
    {S : Type 0} (flags : Flags S) (fs : S) (args want : List Bytes) {found : List Bytes}
    → ((s : S) → IsNamed (flags.visited s))
    → parse flags fs args want ≡ ok found
    → NoneEmpty found
      × (length want ≤ length found)
      × ((takes_rest want ≡ false) → length found ≡ length want)
      × ((last : S) × (gather flags (suc (length args)) fs [] args ≡ ok (last, found))
          × NoneBlank (flags.visited last))
unfolding parse
parse-IsAccepted flags fs args want {found} named same =
    let ((last, given), gathered, rest) =
      >>=-eq-ok (gather flags (suc (length args)) fs [] args) _ same in
    let (all, count, final) = >>=-eq-ok (counted want given) _ rest in
    let (fits, least, exact) = counted-ok want given count in
    let (filled, kept) = unless_blank-ok (blank_of [] (flags.visited last)) all final in
    (
      subst NoneEmpty (fits ∙ kept)
          (gather-NoneEmpty flags (suc (length args)) fs [] args tt gathered),
      subst (λ xs. length want ≤ length xs) kept least,
      (λ fixed. subst (λ xs. length xs ≡ length want) kept (exact fixed)),
      (
        last,
        gathered ∙ ap (λ xs. ok (last, xs)) (fits ∙ kept),
        blank_of-nil [] (flags.visited last) (named last) filled,
      ),
    )
