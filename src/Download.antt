-- ===== src/Download.antt =====
-- The values of package download (abstraction-download/go) that this program builds and reads: their
-- fields, as the program names them. A Go map is an association list.
use abstraction_model.Base.{Bytes, List, [], equal, if◌then◌else◌, pos, ℤ, ◌∷◌}

pub record Artifact : Type 0 where
  pub digest : Bytes
  pub size : ℤ

pub record Source : Type 0 where
  pub scheme : Bytes
  pub locator : Bytes
  pub priority : ℤ
  pub attrs : List (Bytes × Bytes)
  pub headers : List (Bytes × Bytes)

-- `sink` is the field Final of the sink, the only one that the program sets: a test for the empty
-- sink is a test of that field.
pub record Spec : Type 0 where
  pub artifact : Artifact
  pub sources : List Source
  pub sink : Bytes
  pub request : Bytes

-- CredentialError: the credential's name and the reason of the refusal.
pub record CredentialError : Type 0 where
  pub credential : Bytes
  pub reason : Bytes

-- The value of a key in a Go map of strings: the empty string where the key is missing.
unfoldable pub attr : Bytes → List (Bytes × Bytes) → Bytes
attr key [] = []
attr key ((k, v) ∷ m) = if equal k key then v else attr key m

-- The result's digest is `digest` and its only source is at `locator`.
abbrev pub one_source : Bytes → ℤ → Bytes → Bytes → List (Bytes × Bytes) → Spec
one_source digest size scheme locator attrs = record {
  artifact = record { digest = digest; size = size };
  sources =
      record { scheme = scheme; locator = locator; priority = pos 0; attrs = attrs; headers = [] }
      ∷ [];
  sink = [];
  request = [];
}
