-- ===== src/Identity/Assemble.antt =====
-- splitParts and assemble: the base name's own parts and the roles among a name's tokens, and the
-- family that they spell. A Go map used as a set is the list of its keys.
pub mod Roles
pub mod Keep
pub mod Clean
use abstraction_model.Base.{List, [], ◌∷◌, ◌++◌, Bytes, codes, if◌then◌else◌, contains}
use abstraction_model.Strings.{join}
use abstraction_model.Identity.Token.{is_version, is_params}
use abstraction_model.Identity.Words.{packaging, role}

pub record Name : Type 0 where
  pub family : Bytes
  pub quant : Bytes

-- The first loop's variables: `kept` and `roles`, whose items are the keys of `isRole`.
pub record Sorted : Type 0 where
  pub kept : List Bytes
  pub roles : List Bytes

unfoldable pub sort_token : Sorted → Bytes → Sorted
sort_token s t =
    if packaging t
    then s
    else if role t
    then (if contains t s.roles then s else record s { roles = s.roles ++ t ∷ [] })
    else record s { kept = s.kept ++ t ∷ [] }

unfoldable pub sort_tokens : Sorted → List Bytes → Sorted
unfolding sort_token
sort_tokens s [] = s
sort_tokens s (t ∷ ts) = sort_tokens (sort_token s t) ts

-- The second loop's variables.
pub record Chosen : Type 0 where
  pub seen : List Bytes
  pub params : List Bytes
  pub variants : List Bytes

unfoldable pub choose : Chosen → Bytes → Chosen
choose c t =
    if contains t c.seen
    then c
    else if is_params t
    then record c { seen = c.seen ++ t ∷ []; params = c.params ++ t ∷ [] }
    else record c { seen = c.seen ++ t ∷ []; variants = c.variants ++ t ∷ [] }

unfoldable pub choose_all : Chosen → List Bytes → Chosen
unfolding choose
choose_all c [] = c
choose_all c (t ∷ ts) = choose_all (choose c t) ts

-- `append(append([]string{base}, params...), variants...)` behind the second loop.
unfoldable pub with_base : Bytes → List Bytes → List Bytes → List Bytes
unfolding choose_all
with_base base seen rest =
    let c = choose_all (record { seen = seen; params = []; variants = [] }) rest in
    base ∷ (c.params ++ c.variants)

unfoldable pub base_parts : List Bytes → List Bytes
unfolding with_base
base_parts [] = []
base_parts (base ∷ []) = base ∷ []
base_parts (base ∷ (next ∷ rest)) =
    if is_version next
    then with_base (base ++ next) (base ∷ next ∷ (base ++ next) ∷ []) rest
    else with_base base (base ∷ []) (next ∷ rest)

abbrev pub no_tokens : Sorted
no_tokens = record { kept = []; roles = [] }

unfoldable pub split_parts : List Bytes → List Bytes × List Bytes
unfolding sort_tokens base_parts
split_parts toks = let s = sort_tokens no_tokens toks in (base_parts s.kept, s.roles)

-- The name that the base's parts and the roles spell.
unfoldable pub name_of : List Bytes → List Bytes → Bytes → Name
unfolding join
name_of [] roles quant = record { family = join (codes "-") roles; quant = quant }
name_of (b ∷ bs) roles quant = record {
  family = join (codes "-") ((b ∷ bs) ++ roles);
  quant = quant;
}

unfoldable pub assemble : List Bytes → Bytes → Name
unfolding split_parts name_of
assemble toks quant = let (bases, roles) = split_parts toks in name_of bases roles quant
