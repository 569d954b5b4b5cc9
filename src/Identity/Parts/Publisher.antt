-- ===== src/Identity/Parts/Publisher.antt =====
-- The account that a file is published under does not matter.
use mathlib.Core.List.{map-append}
use abstraction_model.Base.{
  Bool, Bytes, List, Option, [], ap, arith, codes, false, none, refl, some, sym, ℕ, ◌++◌, ◌==◌,
  ◌||◌, ◌∙◌, ◌∷◌, ◌≡◌, ◌≢◌,
}
use abstraction_model.Strings.Trim.{
  cut-append, cut_prefix-append, put_all, trim_left-All, trim_left-append, trim_right-append,
}
use abstraction_model.Strings.{
  cut, cut_prefix, is_space, lower_byte, put_first, split, to_lower, trim, trim_left, trim_right,
  trim_space,
}
use abstraction_model.Strings.Fields.{Lacks, split_by-append, split_by-ne-nil}
use abstraction_model.Identity.Parts.{
  all_words, as_path, behind, open_cache, parts, strip_scheme, without_publisher,
}

abbrev is_colon_or_slash : ℕ → Bool
is_colon_or_slash c = c == b':' || c == b'/'

-- An account: no colon and no slash, and no prefix of a Hugging Face cache folder.
pub record IsPublisher (p : Bytes) : Type 0 where
  pub one_segment : Lacks (λ c. c == b':' || c == b'/') p
  pub no_cache : cut_prefix (codes "models--") (to_lower (trim_left is_space p)) ≡ none

-- The words of the path behind the account, where no scheme stands in it.
abbrev path_words : Bytes → List Bytes
path_words s = all_words (split b'/' (to_lower (trim_right is_space s)))

without_publisher-cons :
    (p : Bytes) (segs : List Bytes) → segs ≢ [] → without_publisher (p ∷ segs) ≡ segs
unfolding without_publisher
without_publisher-cons p [] n = absurd (n refl)
without_publisher-cons p (s ∷ segs) n = refl

Lacks-colon : (p : Bytes) → Lacks (λ c. c == b':' || c == b'/') p → Lacks (λ c. b':' == c) p
Lacks-colon [] h = tt
Lacks-colon (c ∷ p) (h, hs) = (ground arith, Lacks-colon p hs)

to_lower-slash :
    (p : Bytes) → Lacks (λ c. c == b':' || c == b'/') p → Lacks (λ c. c == b'/') (to_lower p)
unfolding to_lower lower_byte
to_lower-slash [] h = tt
to_lower-slash (c ∷ p) (h, hs) = (ground arith, to_lower-slash p hs)

to_lower-trim_space :
    (p s : Bytes)
    → to_lower (trim_space (p ++ b'/' ∷ s))
      ≡ to_lower (trim_left is_space p) ++ b'/' ∷ to_lower (trim_right is_space s)
unfolding trim_space trim is_space to_lower
to_lower-trim_space p s = rw (trim_left-append is_space p b'/' s refl) (
    rw (trim_right-append is_space (trim_left is_space p) b'/' s refl)
      (map-append lower_byte (trim_left is_space p) (b'/' ∷ trim_right is_space s)))

open_cache-append :
    (account rest : Bytes)
    → cut_prefix (codes "models--") account ≡ none
    → open_cache (account ++ b'/' ∷ rest) ≡ account ++ b'/' ∷ rest
unfolding open_cache
open_cache-append account rest h = ap (as_path (account ++ b'/' ∷ rest)) (
    cut_prefix-append (codes "models--") account b'/' rest
      (refl, (refl, (refl, (refl, (refl, (refl, (refl, (refl, tt)))))))) h)

without_publisher-split :
    (account rest : Bytes)
    → Lacks (λ c. c == b'/') account
    → without_publisher (split b'/' (account ++ b'/' ∷ rest)) ≡ split b'/' rest
unfolding split
without_publisher-split account rest h =
    ap without_publisher (split_by-append (λ c. c == b'/') account b'/' rest h refl)
    ∙ without_publisher-cons account _ (split_by-ne-nil (λ c. c == b'/') rest)

-- The words of a path whose first segment is an account are those of the rest.
path_words-append :
    (p s : Bytes)
    → IsPublisher p
    → all_words
        (without_publisher (split b'/' (open_cache (to_lower (trim_space (p ++ b'/' ∷ s))))))
      ≡ path_words s
path_words-append p s h =
    let account = to_lower (trim_left is_space p) in
    let rest = to_lower (trim_right is_space s) in
    let lacks =
      to_lower-slash (trim_left is_space p)
        (trim_left-All (λ c. (c == b':' || c == b'/') ≡ false) is_space p h.one_segment) in
    rw (to_lower-trim_space p s) (
      rw (open_cache-append account rest h.no_cache)
        (ap all_words (without_publisher-split account rest lacks)))

abbrev words_behind : Bytes → Option (Bytes × Bytes) → List Bytes
words_behind s none = path_words s
words_behind s (some (before, after)) =
    all_words (without_publisher (split b'/' (open_cache (to_lower (trim_space after)))))

-- The words of a string without its scheme.
abbrev bare_words : Bytes → List Bytes
bare_words s = all_words (without_publisher (split b'/' (open_cache (to_lower (trim_space s)))))

parts-strip_scheme : (s : Bytes) → parts s ≡ bare_words (strip_scheme s)
unfolding parts
parts-strip_scheme s = refl

bare_words-behind :
    (p s : Bytes) (o : Option (Bytes × Bytes))
    → IsPublisher p
    → bare_words (behind (p ++ b'/' ∷ s) (put_all p (put_first b'/' o))) ≡ words_behind s o
bare_words-behind p s none h = path_words-append p s h
bare_words-behind p s (some (a, b)) h = refl

strip_scheme-append :
    (p s : Bytes)
    → IsPublisher p
    → strip_scheme (p ++ b'/' ∷ s)
      ≡ behind (p ++ b'/' ∷ s) (put_all p (put_first b'/' (cut (codes "://") s)))
unfolding strip_scheme
strip_scheme-append p s h =
    ap (behind (p ++ b'/' ∷ s))
      (cut-append b':' (codes "//") p (b'/' ∷ s) (Lacks-colon p h.one_segment))

parts-IsPublisher :
    (p s : Bytes) → IsPublisher p → parts (p ++ b'/' ∷ s) ≡ words_behind s (cut (codes "://") s)
parts-IsPublisher p s h =
    parts-strip_scheme (p ++ b'/' ∷ s)
    ∙ ap bare_words (strip_scheme-append p s h)
    ∙ bare_words-behind p s (cut (codes "://") s) h

-- The words of a string do not depend on the account at its head, if neither account holds a colon
-- or a slash or looks like a Hugging Face cache folder.
pub parts-publisher :
    (p q s : Bytes) → IsPublisher p → IsPublisher q → parts (p ++ b'/' ∷ s) ≡ parts (q ++ b'/' ∷ s)
parts-publisher p q s h k = parts-IsPublisher p s h ∙ sym (parts-IsPublisher q s k)
