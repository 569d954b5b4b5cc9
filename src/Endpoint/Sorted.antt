-- ===== src/Endpoint/Sorted.antt =====
-- The insertion sort of sortedKeys: what it gives is sorted, and holds each key as often as the map's range
-- loop gave it.
use mathlib.Core.List.{Perm, Permᴰ}
use mathlib.Core.List.Permᴰ
use abstraction_model.Base.{Bool-cases, Bytes, List, [], false, inl, inr, refl, ◌++◌, ◌∷◌, ◌≡◌}
use abstraction_model.Endpoint.Describe.{backwards, byte_less, keys_of, sink, sink_all, sorted_keys}
use abstraction_model.Endpoint.Order.{byte_less_asym, sorted_keys_perm}

-- No entry of the list is less than x where it stands next to it: the entry is behind x.
abbrev IsBefore : Bytes → List Bytes → Type 0
IsBefore x [] = Unit
IsBefore x (y ∷ ys) = byte_less y x ≡ false

-- From the least to the greatest.
abbrev pub IsSorted : List Bytes → Type 0
IsSorted [] = Unit
IsSorted (x ∷ xs) = IsBefore x xs × IsSorted xs

abbrev IsBehind : Bytes → List Bytes → Type 0
IsBehind x [] = Unit
IsBehind x (y ∷ ys) = byte_less x y ≡ false

-- From the greatest to the least.
abbrev IsFalling : List Bytes → Type 0
IsFalling [] = Unit
IsFalling (x ∷ xs) = IsBehind x xs × IsFalling xs

sink-IsBehind :
    (x y : Bytes) (ys : List Bytes) → byte_less y x ≡ false → IsBehind y ys → IsBehind y (sink x ys)
unfolding sink
sink-IsBehind x y [] p q = p
sink-IsBehind x y (z ∷ zs) p q = elim (Bool-cases (byte_less x z)) [
  | inl less ↦ rw less q
  | inr not_less ↦ rw not_less p
]

sink-IsFalling : (x : Bytes) (ys : List Bytes) → IsFalling ys → IsFalling (sink x ys)
unfolding sink
sink-IsFalling x [] falls = (tt, tt)
sink-IsFalling x (y ∷ ys) falls = elim (Bool-cases (byte_less x y)) [
  | inl less ↦
      rw less (sink-IsBehind x y ys (byte_less_asym x y less) falls.0, sink-IsFalling x ys falls.1)
  | inr not_less ↦ rw not_less (not_less, falls)
]

sink_all-IsFalling : (sorted xs : List Bytes) → IsFalling sorted → IsFalling (sink_all sorted xs)
unfolding sink_all
sink_all-IsFalling sorted [] falls = falls
sink_all-IsFalling sorted (x ∷ xs) falls =
    sink_all-IsFalling (sink x sorted) xs (sink-IsFalling x sorted falls)

-- The greatest of the falling list is not behind the head of the sorted one.
abbrev AreApart : List Bytes → List Bytes → Type 0
AreApart [] out = Unit
AreApart (x ∷ xs) out = IsBefore x out

Behind-AreApart : (x : Bytes) (xs out : List Bytes) → IsBehind x xs → AreApart xs (x ∷ out)
Behind-AreApart x [] out q = tt
Behind-AreApart x (y ∷ ys) out q = q

backwards-IsSorted :
    (out xs : List Bytes)
    → IsFalling xs
    → AreApart xs out
    → IsSorted out
    → IsSorted (backwards out xs)
backwards-IsSorted out [] falls apart sorted = sorted
backwards-IsSorted out (x ∷ xs) falls apart sorted =
    backwards-IsSorted (x ∷ out) xs falls.1 (Behind-AreApart x xs out falls.0) (apart, sorted)

Nil-AreApart : (xs : List Bytes) → AreApart xs []
Nil-AreApart [] = tt
Nil-AreApart (x ∷ xs) = tt

sink-Permᴰ : (x : Bytes) (ys : List Bytes) → Permᴰ (sink x ys) (x ∷ ys)
unfolding sink
sink-Permᴰ x [] = Permᴰ.refl (x ∷ [])
sink-Permᴰ x (y ∷ ys) = elim (Bool-cases (byte_less x y)) [
  | inl less ↦ rw less (Permᴰ.trans (Permᴰ.cons refl (sink-Permᴰ x ys)) (Permᴰ.swap refl refl))
  | inr not_less ↦ rw not_less (Permᴰ.refl (x ∷ y ∷ ys))
]

sink_all-Permᴰ : (sorted xs : List Bytes) → Permᴰ (sink_all sorted xs) (xs ++ sorted)
unfolding sink_all
sink_all-Permᴰ sorted [] = Permᴰ.refl sorted
sink_all-Permᴰ sorted (x ∷ xs) =
    Permᴰ.trans (sink_all-Permᴰ (sink x sorted) xs)
      (Permᴰ.trans (Permᴰ.append_left xs (sink-Permᴰ x sorted)) (Permᴰ.middle x xs sorted))

backwards-Permᴰ : (out xs : List Bytes) → Permᴰ (backwards out xs) (xs ++ out)
backwards-Permᴰ out [] = Permᴰ.refl out
backwards-Permᴰ out (x ∷ xs) = Permᴰ.trans (backwards-Permᴰ (x ∷ out) xs) (Permᴰ.middle x xs out)

sunk-IsSorted : (xs : List Bytes) → IsSorted (backwards [] (sink_all [] xs))
sunk-IsSorted xs =
    backwards-IsSorted [] (sink_all [] xs) (sink_all-IsFalling [] xs tt)
      (Nil-AreApart (sink_all [] xs)) tt

sunk-Permᴰ : (xs : List Bytes) → Permᴰ (backwards [] (sink_all [] xs)) xs
sunk-Permᴰ xs =
    let whole = sink_all [] xs in
    Permᴰ.trans (Permᴰ.trans (backwards-Permᴰ [] whole) (Permᴰ.append-nil whole))
      (Permᴰ.trans (sink_all-Permᴰ [] xs) (Permᴰ.append-nil xs))

-- sortedKeys gives the keys of the map, each as often as the range loop gave it, with none behind a greater
-- one, and it gives the same list for every order of that loop.
pub sorted_keys-IsSorted :
    {xs ys : List (Bytes × Bytes)}
    → Permᴰ xs ys
    → IsSorted (sorted_keys xs)
      × Perm (sorted_keys xs) (keys_of xs)
      × (sorted_keys xs ≡ sorted_keys ys)
unfolding sorted_keys
sorted_keys-IsSorted {xs} perm =
    (sunk-IsSorted (keys_of xs), ∣ sunk-Permᴰ (keys_of xs) ∣₁, sorted_keys_perm perm)
