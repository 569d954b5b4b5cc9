-- ===== src/Identity/Assemble/Roles.antt =====
-- The two loops of splitParts against descriptions with no state, and where roles and packaging
-- may stand in a name.
use mathlib.Core.Path.{ap₂}
use abstraction_model.Base.{
  All, All-append, Bytes, List, [], ap, append-nil, append_assoc, arith, contains, equal_self,
  false, if◌then◌else◌, inr, not, refl, sym, true, ◌&&◌, ◌++◌, ◌||◌, ◌∙◌, ◌∷◌, ◌≡◌, ◌⊎◌,
}
use abstraction_model.Identity.Assemble.{
  Sorted, assemble, base_parts, name_of, sort_token, sort_tokens, split_parts,
}
use abstraction_model.Identity.Words.{packaging, role}

-- The tokens that are neither packaging nor a role.
unfoldable pub plain : List Bytes → List Bytes
plain [] = []
plain (t ∷ ts) = if packaging t || role t then plain ts else t ∷ plain ts

-- The role tokens behind those in `known`, each once.
unfoldable pub add_roles : List Bytes → List Bytes → List Bytes
add_roles known [] = known
add_roles known (t ∷ ts) =
    add_roles
      (if not (packaging t) && role t && not (contains t known) then known ++ t ∷ [] else known) ts

pub sort_tokens-plain :
    (ts : List Bytes) (s : Sorted)
    → sort_tokens s ts ≡ record { kept = s.kept ++ plain ts; roles = add_roles s.roles ts }
unfolding sort_tokens plain add_roles
sort_tokens-plain [] s = ground (arith, append-nil s.kept)
sort_tokens-plain (t ∷ ts) s =
    ground (arith, sort_tokens-plain ts (sort_token s t), append_assoc s.kept (t ∷ []) (plain ts))

pub split_parts-plain :
    (ts : List Bytes) → split_parts ts ≡ (base_parts (plain ts), add_roles [] ts)
unfolding split_parts
split_parts-plain ts = rw sort_tokens-plain

pub plain-append : (xs ys : List Bytes) → plain (xs ++ ys) ≡ plain xs ++ plain ys
unfolding plain
plain-append [] ys = refl
plain-append (t ∷ xs) ys = ground (arith, plain-append xs ys)

module _ (xs ys : List Bytes) where
  plain_skip : (p : Bytes) → packaging p ≡ true → plain (xs ++ p ∷ ys) ≡ plain (xs ++ ys)
  plain_skip p h = rw (plain-append xs ys, plain-append xs (p ∷ ys)) (unfold plain in rw h)

add_roles_skip :
    (xs ys known : List Bytes) (p : Bytes)
    → packaging p ≡ true
    → add_roles known (xs ++ p ∷ ys) ≡ add_roles known (xs ++ ys)
unfolding add_roles
add_roles_skip [] ys known p h = ground arith
add_roles_skip (t ∷ xs) ys known p h = add_roles_skip xs ys _ p h

split_parts-packaging :
    (xs ys : List Bytes) (p : Bytes)
    → packaging p ≡ true
    → split_parts (xs ++ p ∷ ys) ≡ split_parts (xs ++ ys)
split_parts-packaging xs ys p h =
    split_parts-plain (xs ++ p ∷ ys)
    ∙ ap₂ (λ (k r : List Bytes). (base_parts k, r)) (plain_skip xs ys p h)
        (add_roles_skip xs ys [] p h)
    ∙ sym (split_parts-plain (xs ++ ys))

pub assemble_congr :
    (ts us : List Bytes) (quant : Bytes)
    → split_parts ts ≡ split_parts us
    → assemble ts quant ≡ assemble us quant
assemble_congr ts us quant e =
    unfold assemble in ap (λ (s : List Bytes × List Bytes). name_of s.0 s.1 quant) e

name_of-family :
    (bases roles : List Bytes) (quant quant' : Bytes)
    → (name_of bases roles quant).family ≡ (name_of bases roles quant').family
unfolding name_of
name_of-family [] roles quant quant' = refl
name_of-family (b ∷ bs) roles quant quant' = refl

assemble-family :
    (ts : List Bytes) (quant quant' : Bytes)
    → (assemble ts quant).family ≡ (assemble ts quant').family
unfolding assemble
assemble-family ts quant quant' = name_of-family (split_parts ts).0 (split_parts ts).1 quant quant'

-- Among the tokens that are left of a name once its quantisation runs are taken out, a packaging token may
-- be put in or left out anywhere: assemble spells the same family, whatever the quantisation of either.
pub assemble-packaging :
    (xs ys : List Bytes) (p quant quant' : Bytes)
    → packaging p ≡ true
    → (assemble (xs ++ p ∷ ys) quant).family ≡ (assemble (xs ++ ys) quant').family
assemble-packaging xs ys p quant quant' h =
    ap (λ n. n.family)
      (assemble_congr (xs ++ p ∷ ys) (xs ++ ys) quant (split_parts-packaging xs ys p h))
    ∙ assemble-family (xs ++ ys) quant quant'

-- The only role among these tokens, if there is one, is `r`.
abbrev pub OnlyRole : Bytes → List Bytes → Type 0
OnlyRole r = All (λ t. (packaging t ≡ true) ⊎ (role t ≡ false) ⊎ (t ≡ r))

add_roles-OnlyRole : (r : Bytes) (ts : List Bytes) → OnlyRole r ts → add_roles (r ∷ []) ts ≡ r ∷ []
unfolding add_roles contains
add_roles-OnlyRole r [] h = refl
add_roles-OnlyRole r (t ∷ ts) (h, hs) = ground (arith, add_roles-OnlyRole r ts hs, equal_self r)

OnlyRole-append :
    (r : Bytes) (ts us : List Bytes) → OnlyRole r ts → OnlyRole r us → OnlyRole r (ts ++ r ∷ us)
OnlyRole-append r ts us h k = All-append _ ts (r ∷ us) h (inr (inr refl), k)

add_roles-OnlyRole_nil :
    (r : Bytes) (ts us : List Bytes)
    → packaging r ≡ false
    → role r ≡ true
    → OnlyRole r ts
    → OnlyRole r us
    → add_roles [] (ts ++ r ∷ us) ≡ r ∷ []
unfolding add_roles contains
add_roles-OnlyRole_nil r [] us p q h k = ground (arith, add_roles-OnlyRole r us k)
add_roles-OnlyRole_nil r (t ∷ ts) us p q (h, hs) k = ground (
  arith,
  add_roles-OnlyRole_nil r ts us p q hs k,
  add_roles-OnlyRole r (ts ++ r ∷ us) (OnlyRole-append r ts us hs k),
)

-- Wherever the only role among a name's tokens stands, the name's own parts are those of the other
-- tokens, and the roles are that one.
pub split_parts-role :
    (xs ys : List Bytes) (r : Bytes)
    → packaging r ≡ false
    → role r ≡ true
    → OnlyRole r xs
    → OnlyRole r ys
    → split_parts (xs ++ r ∷ ys) ≡ ((split_parts (xs ++ ys)).0, r ∷ [])
split_parts-role xs ys r p q h k =
    rw
      (
        split_parts-plain (xs ++ r ∷ ys),
        split_parts-plain (xs ++ ys),
        plain-append xs (r ∷ ys),
        plain-append xs ys,
        add_roles-OnlyRole_nil r xs ys p q h k,
      )
      (unfold plain in rw (p, q))
