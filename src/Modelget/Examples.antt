-- ===== src/Modelget/Examples.antt =====
-- A command line with a flag of one argument between the positional ones.
use Prim.Native.Nat.{◌≤◌}
use mathlib.Core.Path.{subst}
use abstraction_model.Strings.{has_suffix}
use abstraction_model.Base.{
  Bool-cases, Bytes, List, Result, [], arith, codes, equal, err, false, if◌then◌else◌, inl, inr,
  length, ok, refl, ◌++◌, ◌∷◌, ◌≡◌, ◌≤◌,
}
use abstraction_model.Modelget.{FlagError, Flags, bad_flag, counted, gather, parse, takes_rest}
use abstraction_model.Modelget.Ends.{IsShrinking, is_out, parse-ends}
use abstraction_model.Modelget.Accepts.{IsNamed, NoneBlank, NoneEmpty, parse-IsAccepted}

-- A flag set with the one flag -o, whose state is the values that it was set to.
abbrev one_flag : List Bytes → List Bytes → Result FlagError (List Bytes × List Bytes)
one_flag values [] = ok (values, [])
one_flag values (a ∷ []) = if equal a (codes "-o") then err (bad_flag a) else ok (values, a ∷ [])
one_flag values (a ∷ (b ∷ args)) =
    let rest = one_flag (values ++ b ∷ []) args in
    if equal a (codes "-o") then rest else ok (values, a ∷ b ∷ args)

abbrev with_names : List Bytes → List (Bytes × Bytes)
with_names [] = []
with_names (v ∷ vs) = (codes "o", v) ∷ with_names vs

abbrev o_flags : Flags (List Bytes)
o_flags = record { parse_flags = one_flag; visited = with_names }

with_names-IsNamed : (vs : List Bytes) → IsNamed (with_names vs)
unfolding equal
with_names-IsNamed [] = tt
with_names-IsNamed (v ∷ vs) = (refl, with_names-IsNamed vs)

fewer :
    {left : List Bytes} (args given : List Bytes)
    → args ≡ left
    → length args ≤ length given
    → length left ≤ length given
fewer args given same h = subst (λ l. length l ≤ length given) same h

o_flags-IsShrinking : IsShrinking o_flags
unfolding equal
o_flags-IsShrinking fs next [] left same = fewer [] [] (cc) (omega arith)
o_flags-IsShrinking fs next (a ∷ []) left same = elim (Bool-cases (equal a (codes "-o"))) [
  | inl e ↦ absurd (cc (rw e at same))
  | inr e ↦ fewer (a ∷ []) (a ∷ []) (let kept = rw e at same in cc) (omega arith)
]
o_flags-IsShrinking fs next (a ∷ (b ∷ args)) left same = elim (Bool-cases (equal a (codes "-o"))) [
  | inl e ↦
      let less = o_flags-IsShrinking (fs ++ b ∷ []) next args left (rw e at same) in
      omega (arith, less)
  | inr e ↦ fewer (a ∷ b ∷ args) (a ∷ b ∷ args) (let kept = rw e at same in cc) (omega arith)
]

abbrev line : List Bytes
line = codes "-o" ∷ codes "d" ∷ codes "hf://o/m" ∷ []

parse-IsAccepted_example :
    NoneEmpty (codes "hf://o/m" ∷ [])
    × (length (codes "ref" ∷ []) ≤ length (codes "hf://o/m" ∷ []))
    × ((takes_rest (codes "ref" ∷ []) ≡ false)
        → length (codes "hf://o/m" ∷ []) ≡ length (codes "ref" ∷ []))
    × ((last : List Bytes) × (gather o_flags 4 [] [] line ≡ ok (last, codes "hf://o/m" ∷ []))
        × NoneBlank (with_names last))
unfolding parse gather counted equal takes_rest has_suffix
parse-IsAccepted_example =
    parse-IsAccepted o_flags [] line (codes "ref" ∷ []) with_names-IsNamed refl

parse-ends_example : is_out (parse o_flags [] line (codes "ref" ∷ [])) ≡ false
parse-ends_example = parse-ends o_flags [] line (codes "ref" ∷ []) o_flags-IsShrinking
