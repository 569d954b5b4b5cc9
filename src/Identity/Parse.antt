-- ===== src/Identity/Parse.antt =====
-- Parse, Family, Same, Shard and Component.
pub mod Same
pub mod Hosts
pub mod Component
use abstraction_model.Base.{
  Bool, Bytes, List, Option, [], codes, equal, if◌then◌else◌, none, not, some, ℕ, ◌&&◌, ◌++◌, ◌∷◌,
}
use abstraction_model.Strings.{join}
use abstraction_model.Identity.Assemble.{Name, assemble, split_parts}
use abstraction_model.Identity.Parts.{parts}
use abstraction_model.Identity.Token.{digits}
use abstraction_model.Identity.Tokens.{raw_tokens, shard_run, tokens}

-- The loop over the words: their tokens in a row, and the last quantisation that is not empty.
unfoldable pub gather : List Bytes → Bytes → List Bytes → List Bytes × Bytes
unfolding tokens
gather toks quant [] = (toks, quant)
gather toks quant (p ∷ ps) =
    let (t, q) = tokens p in gather (toks ++ t) (if equal q [] then quant else q) ps

unfoldable pub parse : Bytes → Name
unfolding gather parts assemble
parse s = let (toks, quant) = gather [] [] (parts s) in assemble toks quant

unfoldable pub family : Bytes → Bytes
unfolding parse
family s = (parse s).family

unfoldable pub same : Bytes → Bytes → Bool
same a b = not (equal (family a) []) && equal (family a) (family b)

abbrev pub component_of : List Bytes → List Bytes → Bytes × Bytes
component_of (b ∷ bs) (r ∷ []) = (join (codes "-") (b ∷ bs), r)
component_of _ _ = ([], [])

-- Base and role of a name that states exactly one role; two empty strings for any other.
unfoldable pub component : Bytes → Bytes × Bytes
unfolding gather parts split_parts join
component s =
    let (toks, quant) = gather [] [] (parts s) in
    let (bases, roles) = split_parts toks in component_of bases roles

-- The counters of the first shard run in a slice of tokens.
unfoldable pub find_shard : List Bytes → Option (ℕ × ℕ)
unfolding shard_run digits
find_shard (a ∷ (b ∷ (c ∷ rest))) =
    let later = find_shard (b ∷ (c ∷ rest)) in
    if shard_run (a ∷ (b ∷ (c ∷ rest))) then some (digits a, digits c) else later
find_shard _ = none

unfoldable pub first_shard : List Bytes → Option (ℕ × ℕ)
unfolding raw_tokens find_shard
first_shard [] = none
first_shard (p ∷ ps) = elim (find_shard (raw_tokens p)) [
  | some found ↦ some found
  | none ↦ first_shard ps
]

unfoldable pub shard : Bytes → Option (ℕ × ℕ)
unfolding parts first_shard
shard name = first_shard (parts name)
