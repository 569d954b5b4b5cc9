-- ===== src/Local.antt =====
-- go/local.go: the copies of an artifact that this machine already has, offered in front of the
-- registry's sources.
mod Examples
pub mod Sources
use abstraction_model.Base.{
  Bool, Bytes, List, Option, [], codes, contains, equal, false, if◌then◌else◌, ltb, negsuc, none,
  pos, some, suc, true, ℕ, ℤ, ◌++◌, ◌-◌, ◌||◌, ◌∷◌,
}
use abstraction_model.Download.{Source, Spec}

-- Local: the stores of package storage (abstraction-storage/go), with its FindAll and Path and the
-- fields Store and Size of what FindAll answers, and the two spellings of a path that placeKey asks
-- for: identity.PlaceKey of package abstraction-identity, and filepath.Clean.
pub record Local : Type 1 where
  pub Blob : Type 0
  pub store_of : Blob → Bytes
  pub size_of : Blob → ℤ
  pub find_all : Bytes → List Blob
  pub path_of_blob : Blob → Bytes
  pub final_path : Bytes → Option Bytes
  pub clean : Bytes → Bytes

pub record Hit : Type 0 where
  pub store : Bytes
  pub path : Bytes
  pub size : ℤ

abbrev pub hit_of : (l : Local) → l.Blob → Hit
hit_of l b = record { store = l.store_of b; path = l.path_of_blob b; size = l.size_of b }

unfoldable pub hits_of : (l : Local) → List l.Blob → List Hit
hits_of l [] = []
hits_of l (b ∷ bs) =
    let rest = hits_of l bs in if equal (l.path_of_blob b) [] then rest else hit_of l b ∷ rest

unfoldable pub find : Local → Bytes → List Hit
find l digest = hits_of l (l.find_all digest)

unfoldable pub place_key : Local → Bytes → Bytes
place_key l p = elim (l.final_path p) [ none ↦ l.clean p | some key ↦ key ]

abbrev pub file_scheme : Bytes
file_scheme = codes "file"

-- The keys of `already` behind the first loop.
unfoldable pub file_keys : Local → List Source → List Bytes
file_keys l [] = []
file_keys l (s ∷ ss) =
    let rest = file_keys l ss in
    if equal s.scheme file_scheme then place_key l s.locator ∷ rest else rest

-- `-100 + n`.
unfoldable pub local_priority : ℕ → ℤ
local_priority n = if ltb n 100 then negsuc (99 - n) else pos (n - 100)

abbrev pub store_attr : Bytes
store_attr = codes "store"

abbrev pub local_source : ℕ → Hit → Source
local_source n h = record {
  scheme = file_scheme;
  locator = h.path;
  priority = local_priority n;
  attrs = (store_attr, h.store) ∷ [];
  headers = [];
}

-- The second loop: `n` is the length of `local` so far.
unfoldable pub offer : Local → List Bytes → ℕ → List Hit → List Source
offer l already n [] = []
offer l already n (h ∷ hs) = elim (contains (place_key l h.path) already) [
  | true ↦ offer l already n hs
  | false ↦ local_source n h ∷ offer l (place_key l h.path ∷ already) (suc n) hs
]

abbrev pub augment_with : Local → Spec → List Hit → Spec
augment_with l spec [] = spec
augment_with l spec (h ∷ hs) = record spec {
  sources = offer l (file_keys l spec.sources) 0 (h ∷ hs) ++ spec.sources;
}

unfoldable pub augment : Local → Spec → Spec
augment l spec = augment_with l spec (find l spec.artifact.digest)

-- SameVolume, with filepath.VolumeName, the separator, and identity.SameFile of package
-- abstraction-identity, which fails where a root does not exist.
unfoldable pub same_volume :
    (Bytes → Bytes) → Bytes → (Bytes → Bytes → Option Bool) → Bytes → Bytes → Bool
same_volume volume_name separator same_file a b =
    if equal (volume_name a) [] || equal (volume_name b) []
    then false
    else elim (same_file (volume_name a ++ separator) (volume_name b ++ separator)) [
      | none ↦ false
      | some same ↦ same
    ]
