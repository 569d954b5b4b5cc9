-- ===== src/Identity/Parse/Component.antt =====
-- A component's base and role, against the family of the same name.
use abstraction_model.Base.{
  Bytes, List, [], ap, append_assoc, codes, contains, equal_self, refl, true, ◌++◌, ◌∙◌, ◌∷◌, ◌≡◌,
  ◌≢◌,
}
use abstraction_model.Identity.Assemble.Keep.{split_parts-role_from}
use abstraction_model.Strings.{join}
use abstraction_model.Identity.Assemble.{split_parts}
use abstraction_model.Identity.Parse.{component, component_of, family}
use abstraction_model.Identity.Parse.Same.{all_tokens, family-stated, stated}
use abstraction_model.Identity.Words.{role}

join-concat :
    (sep r b : Bytes) (bs : List Bytes)
    → join sep ((b ∷ bs) ++ r ∷ []) ≡ join sep (b ∷ bs) ++ (sep ++ r)
unfolding join
join-concat sep r b [] = refl
join-concat sep r b (c ∷ bs) =
    ap (λ (x : Bytes). b ++ (sep ++ x)) (join-concat sep r c bs) ∙ simp append_assoc

-- What a nonempty answer says of the base's parts and the roles.
component_of-roles :
    (bases roles : List Bytes)
    → (component_of bases roles).1 ≢ []
    → (roles ≡ (component_of bases roles).1 ∷ [])
      × (join (codes "-") (bases ++ roles)
          ≡ (component_of bases roles).0 ++ (codes "-" ++ (component_of bases roles).1))
component_of-roles [] roles n = absurd (n refl)
component_of-roles (b ∷ bs) [] n = absurd (n refl)
component_of-roles (b ∷ bs) (r ∷ []) n = (refl, join-concat (codes "-") r b bs)
component_of-roles (b ∷ bs) (r ∷ (r' ∷ more)) n = absurd (n refl)

component-split_parts :
    (s : Bytes)
    → component s ≡ component_of (split_parts (all_tokens s)).0 (split_parts (all_tokens s)).1
unfolding component all_tokens
component-split_parts s = refl

family-stated_lem :
    (s : Bytes)
    → family s ≡ join (codes "-") ((split_parts (all_tokens s)).0 ++ (split_parts (all_tokens s)).1)
unfolding stated
family-stated_lem s = family-stated s

contains_singleton : (r : Bytes) → contains r (r ∷ []) ≡ true
unfolding contains
contains_singleton r = rw (equal_self r)

component_of-family :
    (s : Bytes)
    → let c = component_of (split_parts (all_tokens s)).0 (split_parts (all_tokens s)).1 in
      c.1 ≢ []
      → (role c.1 ≡ true)
        × (contains c.1 (all_tokens s) ≡ true)
        × (family s ≡ c.0 ++ (codes "-" ++ c.1))
component_of-family s n =
    let c = component_of (split_parts (all_tokens s)).0 (split_parts (all_tokens s)).1 in
    let (one, spelled) =
      component_of-roles (split_parts (all_tokens s)).0 (split_parts (all_tokens s)).1 n in
    let known =
      split_parts-role_from c.1 (all_tokens s) (ap (contains c.1) one ∙ contains_singleton c.1) in
    (known.1, known.0, family-stated_lem s ∙ spelled)

-- A role that Component answers is a role and a token of the name, and the name's family is the base
-- that Component answers, a dash and that role.
pub component-family :
    (s : Bytes)
    → (component s).1 ≢ []
    → (role (component s).1 ≡ true)
      × (contains (component s).1 (all_tokens s) ≡ true)
      × (family s ≡ (component s).0 ++ (codes "-" ++ (component s).1))
component-family s n =
    rw (component-split_parts s) (component_of-family s (rw (component-split_parts s) at n))
