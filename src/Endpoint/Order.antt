-- ===== src/Endpoint/Order.antt =====
-- The order that sortedKeys gives the keys of a map: it does not depend on the order of the map's range
-- loop, which Go leaves open, so that a description of a service is always the same text.
use mathlib.Core.Path.{subst}
use mathlib.Core.List.{Permᴰ}
use abstraction_model.Base.{
  Bool-cases, Bytes, List, [], ap, arith, false, inl, inr, refl, sym, true, ◌∙◌, ◌∷◌, ◌≡◌,
}
use abstraction_model.Endpoint.Describe.{backwards, byte_less, keys_of, sink, sink_all, sorted_keys}

pub byte_less_trans :
    (a b c : Bytes) → byte_less a b ≡ true → byte_less b c ≡ true → byte_less a c ≡ true
unfolding byte_less
byte_less_trans a b [] p q = absurd (ground (arith, p, q))
byte_less_trans a [] (z ∷ c) p q = absurd (ground (arith, p, q))
byte_less_trans [] (y ∷ b) (z ∷ c) p q = refl
byte_less_trans (x ∷ a) (y ∷ b) (z ∷ c) p q = ground (arith, p, q, byte_less_trans a b c)

pub byte_less_total : (a b : Bytes) → byte_less a b ≡ false → byte_less b a ≡ false → a ≡ b
unfolding byte_less
byte_less_total [] [] p q = refl
byte_less_total [] (y ∷ b) p q = absurd (ground (arith, p, q))
byte_less_total (x ∷ a) [] p q = absurd (ground (arith, p, q))
byte_less_total (x ∷ a) (y ∷ b) p q = ground (arith, p, q, byte_less_total a b)

pub byte_less_asym : (a b : Bytes) → byte_less a b ≡ true → byte_less b a ≡ false
unfolding byte_less
byte_less_asym a [] p = absurd (ground (arith, p))
byte_less_asym [] (y ∷ b) p = refl
byte_less_asym (x ∷ a) (y ∷ b) p = ground (arith, p, byte_less_asym a b)

-- Two keys may be sunk in either order, into any list.
sink_less :
    (x y : Bytes) (zs : List Bytes) → byte_less x y ≡ true → sink x (sink y zs) ≡ sink y (sink x zs)
unfolding sink
sink_less x y [] p = let q = byte_less_asym x y p in rw (p, q) refl
sink_less x y (z ∷ zs) p = elim (Bool-cases (byte_less y z)) [
  | inl above ↦
      let further = byte_less_trans x y z p above in
      rw (above, further, sink, above) (ap (◌∷◌ z) (sink_less x y zs p))
  | inr here ↦ elim (Bool-cases (byte_less x z)) [
    | inl over ↦ rw (here, over, sink, p, here) refl
    | inr stays ↦ let q = byte_less_asym x y p in rw (here, stays, sink, p, q) refl
  ]
]

sink-sink : (x y : Bytes) (zs : List Bytes) → sink x (sink y zs) ≡ sink y (sink x zs)
sink-sink x y zs = elim (Bool-cases (byte_less x y)) [
  | inl p ↦ sink_less x y zs p
  | inr p ↦ elim (Bool-cases (byte_less y x)) [
    | inl q ↦ sym (sink_less y x zs q)
    | inr q ↦ subst (λ t. sink x (sink t zs) ≡ sink t (sink x zs)) (byte_less_total x y p q) refl
  ]
]

sink_all_perm :
    {xs ys : List Bytes} (sorted : List Bytes)
    → Permᴰ xs ys
    → sink_all sorted xs ≡ sink_all sorted ys
unfolding sink_all
sink_all_perm sorted Permᴰ.nil = refl
sink_all_perm sorted (Permᴰ.cons {a} {b} {l₁} {l₂} p t) =
    ap (λ x. sink_all (sink x sorted) l₁) p ∙ sink_all_perm (sink b sorted) t
sink_all_perm sorted (Permᴰ.swap {a} {b} {a'} {b'} {l} p q) =
    ap (λ t. sink_all t l)
      (sink-sink b a sorted
        ∙ ap (λ x. sink x (sink b sorted)) p
        ∙ ap (λ x. sink b' (sink x sorted)) q)
sink_all_perm sorted (Permᴰ.trans s t) = sink_all_perm sorted s ∙ sink_all_perm sorted t

keys_of_perm : {xs ys : List (Bytes × Bytes)} → Permᴰ xs ys → Permᴰ (keys_of xs) (keys_of ys)
keys_of_perm Permᴰ.nil = Permᴰ.nil
keys_of_perm (Permᴰ.cons p t) = Permᴰ.cons (ap (λ e. e.0) p) (keys_of_perm t)
keys_of_perm (Permᴰ.swap p q) = Permᴰ.swap (ap (λ e. e.0) p) (ap (λ e. e.0) q)
keys_of_perm (Permᴰ.trans s t) = Permᴰ.trans (keys_of_perm s) (keys_of_perm t)

-- sortedKeys gives the same list for every order of the map's entries.
pub sorted_keys_perm :
    {xs ys : List (Bytes × Bytes)} → Permᴰ xs ys → sorted_keys xs ≡ sorted_keys ys
unfolding sorted_keys
sorted_keys_perm perm = ap (backwards []) (sink_all_perm [] (keys_of_perm perm))
