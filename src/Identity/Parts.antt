-- ===== src/Identity/Parts.antt =====
-- parts, withoutPublisher and extension: a host's string, cut into the words of its path.
pub mod Case
pub mod Publisher
use abstraction_model.Base.{
  Bool, Bytes, List, Option, [], codes, if◌then◌else◌, map, none, some, ℕ, ◌++◌, ◌==◌, ◌||◌, ◌∷◌,
}
use abstraction_model.Strings.{
  cut, cut_byte, cut_last, cut_prefix, drop_empty, fields, replace_all, split, to_lower, trim_space,
  trim_suffix,
}
use abstraction_model.Identity.Words.{is_extension}

unfoldable pub without_publisher : List Bytes → List Bytes
without_publisher (a ∷ (b ∷ segs)) = b ∷ segs
without_publisher segs = segs

-- The suffix from the last dot on, if it is a known file type.
unfoldable pub extension : Bytes → Bytes
unfolding cut_last
extension p = elim (cut_last b'.' p) [
  | none ↦ []
  | some (before, after) ↦ if is_extension (b'.' ∷ after) then b'.' ∷ after else []
]

abbrev pub behind : Bytes → Option (Bytes × Bytes) → Bytes
behind s none = s
behind s (some (before, after)) = after

-- `s = s[i+3:]` for the first :// in `s`.
unfoldable pub strip_scheme : Bytes → Bytes
unfolding cut
strip_scheme s = behind s (cut (codes "://") s)

abbrev pub as_path : Bytes → Option Bytes → Bytes
as_path s none = s
as_path s (some rest) = replace_all (codes "--") (codes "/") rest

-- A Hugging Face cache folder becomes a path.
unfoldable pub open_cache : Bytes → Bytes
unfolding cut_prefix replace_all
open_cache s = as_path s (cut_prefix (codes "models--") s)

unfoldable pub normalize : Bytes → Bytes
unfolding strip_scheme to_lower trim_space open_cache
normalize s = open_cache (to_lower (trim_space (strip_scheme s)))

unfoldable pub is_mark : ℕ → Bool
is_mark c = c == b':' || c == b'#'

-- The words of one path segment: what stands before the first @, cut at : and #, each word without
-- its file type, and no empty word.
unfoldable pub segment_words : Bytes → List Bytes
unfolding cut_byte fields extension trim_suffix is_mark
segment_words seg =
    let name : Bytes = elim (cut_byte b'@' seg) [ none ↦ seg | some (before, after) ↦ before ] in
    drop_empty (map (λ p. trim_suffix (extension p) p) (fields is_mark name))

unfoldable pub all_words : List Bytes → List Bytes
unfolding segment_words
all_words [] = []
all_words (seg ∷ segs) = segment_words seg ++ all_words segs

unfoldable pub parts : Bytes → List Bytes
unfolding normalize split without_publisher all_words
parts s = all_words (without_publisher (split b'/' (normalize s)))
