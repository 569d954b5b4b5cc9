-- ===== src/Identity/Assemble/Keep.antt =====
-- What splitParts keeps of a name's tokens, and that it invents none.
use abstraction_model.Base.{
  Bool, Bool-cases, Bytes, List, [], ap, arith, contains, contains-append, equal, equal_iff, false,
  inl, inr, not, refl, sym, true, ◌&&◌, ◌++◌, ◌||◌, ◌∙◌, ◌∷◌, ◌≡◌, ◌⊎◌,
}
use abstraction_model.Identity.Assemble.Roles.{add_roles, plain, split_parts-plain}
use abstraction_model.Identity.Words.{packaging, role}
use abstraction_model.Identity.Token.{is_version}
use abstraction_model.Identity.Assemble.{
  Chosen, base_parts, choose, choose_all, split_parts, with_base,
}

-- Whether a token is among those that the second loop has put into a list.
abbrev listed : Bytes → Chosen → Bool
listed t c = contains t c.params || contains t c.variants

-- What the loop knows, at a token `t`: `known` says whether `seen` held it before the loop.
abbrev Tracks : Bytes → Bool → Chosen → Type 0
Tracks t known c = contains t c.seen ≡ (listed t c || known)

contains-concat :
    (t x : Bytes) (xs : List Bytes) → contains t (xs ++ x ∷ []) ≡ (contains t xs || equal t x)
unfolding contains
contains-concat t x xs = ground (arith, contains-append t xs (x ∷ []))

choose-Tracks :
    (t : Bytes) (known : Bool) (c : Chosen) (x : Bytes)
    → Tracks t known c
    → Tracks t known (choose c x)
unfolding choose
choose-Tracks t known c x h = ground (
  arith,
  contains-concat t x c.seen,
  contains-concat t x c.params,
  contains-concat t x c.variants,
)

choose-seen :
    (t : Bytes) (c : Chosen) (x : Bytes)
    → contains t (choose c x).seen ≡ (contains t c.seen || equal t x)
unfolding choose
choose-seen t c x = ground (arith, contains-concat t x c.seen, equal_iff t x)

choose_all-seen :
    (t : Bytes) (rest : List Bytes) (c : Chosen)
    → contains t (choose_all c rest).seen ≡ (contains t c.seen || contains t rest)
unfolding choose_all contains
choose_all-seen t [] c = ground arith
choose_all-seen t (x ∷ rest) c =
    ground (arith, choose_all-seen t rest (choose c x), choose-seen t c x)

choose_all-Tracks :
    (t : Bytes) (known : Bool) (rest : List Bytes) (c : Chosen)
    → Tracks t known c
    → Tracks t known (choose_all c rest)
unfolding choose_all
choose_all-Tracks t known [] c h = h
choose_all-Tracks t known (x ∷ rest) c h =
    choose_all-Tracks t known rest (choose c x) (choose-Tracks t known c x h)

-- Behind the base stand the tokens of `rest`, apart from those in `seen`.
contains-with_base :
    (t base : Bytes) (seen rest : List Bytes)
    → (contains t (with_base base seen rest) || contains t seen)
      ≡ (equal t base || contains t seen || contains t rest)
unfolding with_base contains
contains-with_base t base seen rest =
    let start : Chosen = record { seen = seen; params = []; variants = [] } in
    let last = choose_all start rest in
    ground (
      arith,
      contains-append t last.params last.variants,
      choose_all-seen t rest start,
      choose_all-Tracks t (contains t seen) rest start refl,
    )

contains-with_base_self :
    (t base : Bytes) (seen rest : List Bytes)
    → equal t base ≡ true
    → contains t (with_base base seen rest) ≡ true
unfolding with_base contains
contains-with_base_self t base seen rest h = rw h

-- A base part that joins `t` with a version token, at either end.
abbrev pub Joined : Bytes → List Bytes → Type 0
Joined t [] = ⊥
Joined t (b ∷ bs) =
    ((v : Bytes) × (is_version v ≡ true) × (b ≡ t ++ v))
    ⊎ ((a : Bytes) × (is_version t ≡ true) × (b ≡ a ++ t))

Joined-with_base :
    (t b n : Bytes) (seen rest : List Bytes)
    → is_version n ≡ true
    → (equal t b || equal t n) ≡ true
    → Joined t (with_base (b ++ n) seen rest)
unfolding with_base
Joined-with_base t b n seen rest v h = elim (Bool-cases (equal t b)) [
  | inl e ↦ inl (n, v, ap (λ (x : Bytes). x ++ n) (sym ((equal_iff t b).0 e)))
  | inr d ↦
      let e : t ≡ n = ground (arith, equal_iff t n) in
      inr (b, rw e v, ap (λ (x : Bytes). b ++ x) (sym e))
]

contains-with_base_new :
    (t b n : Bytes) (rest : List Bytes)
    → (equal t b || equal t n) ≡ false
    → contains t (b ∷ n ∷ rest) ≡ true
    → contains t (with_base (b ++ n) (b ∷ n ∷ (b ++ n) ∷ []) rest) ≡ true
unfolding contains
contains-with_base_new t b n rest h k = ground (
  arith,
  contains-with_base t (b ++ n) (b ∷ n ∷ (b ++ n) ∷ []) rest,
  contains-with_base_self t (b ++ n) (b ∷ n ∷ (b ++ n) ∷ []) rest,
)

base_parts-keeps_version :
    (t b n : Bytes) (rest : List Bytes)
    → is_version n ≡ true
    → contains t (b ∷ n ∷ rest) ≡ true
    → let out = with_base (b ++ n) (b ∷ n ∷ (b ++ n) ∷ []) rest in
      (contains t out ≡ true) ⊎ Joined t out
base_parts-keeps_version t b n rest v h = elim (Bool-cases (equal t b || equal t n)) [
  | inl e ↦ inr (Joined-with_base t b n _ rest v e)
  | inr d ↦ inl (contains-with_base_new t b n rest d h)
]

contains-with_base_one :
    (t b : Bytes) (rest : List Bytes)
    → contains t (with_base b (b ∷ []) rest) ≡ contains t (b ∷ rest)
unfolding contains
contains-with_base_one t b rest =
    ground (arith, contains-with_base t b (b ∷ []) rest, contains-with_base_self t b (b ∷ []) rest)

-- The base's parts state every kept token: as a part, or joined with the version in the first part.
pub base_parts-keeps :
    (t : Bytes) (ks : List Bytes)
    → contains t ks ≡ true
    → (contains t (base_parts ks) ≡ true) ⊎ Joined t (base_parts ks)
unfolding base_parts
base_parts-keeps t [] h = inl h
base_parts-keeps t (b ∷ []) h = inl h
base_parts-keeps t (b ∷ (n ∷ rest)) h = elim (Bool-cases (is_version n)) [
  | inl v ↦ rw v (base_parts-keeps_version t b n rest v h)
  | inr v ↦ rw v (inl (contains-with_base_one t b (n ∷ rest) ∙ h))
]

-- A base part that no token of the name spells: the first token with the version behind it.
abbrev pub FirstJoined : Bytes → List Bytes → Type 0
FirstJoined t [] = ⊥
FirstJoined t (a ∷ []) = ⊥
FirstJoined t (a ∷ (v ∷ rest)) = (is_version v ≡ true) × (t ≡ a ++ v)

with_base-invents_none :
    (t b n : Bytes) (rest : List Bytes)
    → is_version n ≡ true
    → contains t (with_base (b ++ n) (b ∷ n ∷ (b ++ n) ∷ []) rest) ≡ true
    → (contains t (b ∷ n ∷ rest) ≡ true) ⊎ FirstJoined t (b ∷ n ∷ rest)
unfolding contains
with_base-invents_none t b n rest v h = elim (Bool-cases (equal t (b ++ n))) [
  | inl e ↦ inr (v, (equal_iff t (b ++ n)).0 e)
  | inr d ↦ inl (ground (arith, contains-with_base t (b ++ n) (b ∷ n ∷ (b ++ n) ∷ []) rest))
]

-- Every part of the base is a kept token, or the first two of them joined.
pub base_parts-invents_none :
    (t : Bytes) (ks : List Bytes)
    → contains t (base_parts ks) ≡ true
    → (contains t ks ≡ true) ⊎ FirstJoined t ks
unfolding base_parts
base_parts-invents_none t [] h = inl h
base_parts-invents_none t (b ∷ []) h = inl h
base_parts-invents_none t (b ∷ (n ∷ rest)) h = elim (Bool-cases (is_version n)) [
  | inl v ↦ with_base-invents_none t b n rest v (rw v at h)
  | inr v ↦ inl (sym (contains-with_base_one t b (n ∷ rest)) ∙ (rw v at h))
]

contains-plain :
    (t : Bytes) (ts : List Bytes)
    → contains t (plain ts) ≡ (contains t ts && not (packaging t || role t))
unfolding plain contains
contains-plain t [] = refl
contains-plain t (x ∷ ts) = ground (arith, contains-plain t ts, equal_iff t x)

contains-add_roles :
    (t : Bytes) (ts known : List Bytes)
    → contains t (add_roles known ts)
      ≡ (contains t known || (contains t ts && (not (packaging t) && role t)))
unfolding add_roles contains
contains-add_roles t [] known = ground arith
contains-add_roles t (x ∷ ts) known = ground (
  arith,
  contains-add_roles t ts known,
  contains-add_roles t ts (known ++ x ∷ []),
  contains-concat t x known,
  equal_iff t x,
)

-- Every token of a name that is not packaging is stated by the split: as a role, as a part of the
-- base, or joined with a version token in the base's first part.
pub split_parts-keeps :
    (t : Bytes) (ts : List Bytes)
    → contains t ts ≡ true
    → packaging t ≡ false
    → (contains t (split_parts ts).1 ≡ true)
      ⊎ (contains t (split_parts ts).0 ≡ true)
      ⊎ Joined t (split_parts ts).0
split_parts-keeps t ts h p = rw (split_parts-plain ts) (elim (Bool-cases (role t)) [
  | inl r ↦ inl (ground (arith, contains-add_roles t ts []))
  | inr r ↦ inr (base_parts-keeps t (plain ts) (ground (arith, contains-plain t ts)))
])

-- A role that the split states is a role token of the name that is not packaging.
pub split_parts-role_from :
    (t : Bytes) (ts : List Bytes)
    → contains t (split_parts ts).1 ≡ true
    → (contains t ts ≡ true) × (role t ≡ true) × (packaging t ≡ false)
unfolding contains
split_parts-role_from t ts h =
    let k : contains t (add_roles [] ts) ≡ true =
      unfold contains in rw (split_parts-plain ts) at h in
    ground (arith, contains-add_roles t ts [])

-- A part of the base is a token of the name that is neither packaging nor a role, or the first two
-- such tokens joined, the second being a version.
pub split_parts-base_from :
    (t : Bytes) (ts : List Bytes)
    → contains t (split_parts ts).0 ≡ true
    → ((contains t ts ≡ true) × (role t ≡ false) × (packaging t ≡ false)) ⊎ FirstJoined t (plain ts)
unfolding contains
split_parts-base_from t ts h =
    elim (base_parts-invents_none t (plain ts) (rw (split_parts-plain ts) at h)) [
      | inl k ↦ inl (ground (arith, contains-plain t ts))
      | inr j ↦ inr j
    ]
