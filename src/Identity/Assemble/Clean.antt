-- ===== src/Identity/Assemble/Clean.antt =====
-- The parts that splitParts makes of clean tokens are clean.
use abstraction_model.Base.{
  All, All-append, Bool, Bool-cases, Bytes, List, [], contains, false, inl, inr, not, ℕ, ◌&&◌, ◌++◌,
  ◌||◌, ◌∷◌, ◌≡◌,
}
use abstraction_model.Strings.Fields.{IsClean}
use abstraction_model.Identity.Assemble.{
  Chosen, base_parts, choose, choose_all, split_parts, with_base,
}
use abstraction_model.Identity.Assemble.Roles.{add_roles, plain, split_parts-plain}
use abstraction_model.Identity.Token.{is_params, is_version}
use abstraction_model.Identity.Words.{packaging, role}

module _ {ℓ} (P : Bytes → Type ℓ) where
  plain-All : (ts : List Bytes) → All P ts → All P (plain ts)
  unfolding plain
  plain-All [] h = tt
  plain-All (t ∷ ts) (h, hs) = elim (Bool-cases (packaging t || role t)) [
    | inl e ↦ rw e (plain-All ts hs)
    | inr e ↦ rw e (h, plain-All ts hs)
  ]

  add_roles-All : (ts known : List Bytes) → All P ts → All P known → All P (add_roles known ts)
  unfolding add_roles
  add_roles-All [] known h k = k
  add_roles-All (t ∷ ts) known (h, hs) k =
      elim (Bool-cases (not (packaging t) && role t && not (contains t known))) [
        | inl e ↦
            rw e (add_roles-All ts (known ++ t ∷ []) hs (All-append P known (t ∷ []) k (h, tt)))
        | inr e ↦ rw e (add_roles-All ts known hs k)
      ]

  choose-All :
      (c : Chosen) (t : Bytes)
      → P t
      → All P c.params × All P c.variants
      → All P (choose c t).params × All P (choose c t).variants
  unfolding choose
  choose-All c t h (hp, hv) = elim (Bool-cases (contains t c.seen)) [
    | inl e ↦ rw e (hp, hv)
    | inr e ↦ elim (Bool-cases (is_params t)) [
      | inl p ↦ rw (e, p) (All-append P c.params (t ∷ []) hp (h, tt), hv)
      | inr p ↦ rw (e, p) (hp, All-append P c.variants (t ∷ []) hv (h, tt))
    ]
  ]

  choose_all-All :
      (ts : List Bytes) (c : Chosen)
      → All P ts
      → All P c.params × All P c.variants
      → All P (choose_all c ts).params × All P (choose_all c ts).variants
  unfolding choose_all
  choose_all-All [] c h k = k
  choose_all-All (t ∷ ts) c (h, hs) k = choose_all-All ts (choose c t) hs (choose-All c t h k)

  with_base-All :
      (base : Bytes) (seen rest : List Bytes)
      → P base
      → All P rest
      → All P (with_base base seen rest)
  unfolding with_base
  with_base-All base seen rest h hs =
      let k =
        choose_all-All rest (record { seen = seen; params = []; variants = [] }) hs (tt, tt) in
      (h, All-append P _ _ k.0 k.1)

-- Joining two clean tokens gives a clean one.
append-IsClean :
    (test : ℕ → Bool) (a b : Bytes) → IsClean test a → IsClean test b → IsClean test (a ++ b)
append-IsClean test [] b h k = k
append-IsClean test (c ∷ a) b h k = ((λ e. cc), All-append (λ d. test d ≡ false) (c ∷ a) b h.1 k.1)

base_parts-IsClean :
    (test : ℕ → Bool) (ks : List Bytes) → All (IsClean test) ks → All (IsClean test) (base_parts ks)
unfolding base_parts
base_parts-IsClean test [] h = tt
base_parts-IsClean test (b ∷ []) h = h
base_parts-IsClean test (b ∷ (n ∷ ks)) (hb, (hn, hs)) = elim (Bool-cases (is_version n)) [
  | inl v ↦ rw v (with_base-All (IsClean test) _ _ ks (append-IsClean test b n hb hn) hs)
  | inr v ↦ rw v (with_base-All (IsClean test) b _ (n ∷ ks) hb (hn, hs))
]

-- Base parts and roles of clean tokens are clean.
pub split_parts-IsClean :
    (test : ℕ → Bool) (ts : List Bytes)
    → All (IsClean test) ts
    → All (IsClean test) ((split_parts ts).0 ++ (split_parts ts).1)
split_parts-IsClean test ts h = rw (split_parts-plain ts) (
    All-append (IsClean test) (base_parts (plain ts)) (add_roles [] ts)
      (base_parts-IsClean test (plain ts) (plain-All (IsClean test) ts h))
      (add_roles-All (IsClean test) ts [] h tt))
