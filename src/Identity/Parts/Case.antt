-- ===== src/Identity/Parts/Case.antt =====
-- The case of a host's string does not matter.
use mathlib.Core.Option
use abstraction_model.Base.{All, Bytes, Option, ap, arith, codes, none, refl, some, sym, ◌∙◌, ◌≡◌}
use abstraction_model.Strings.{cut, lower_byte, split, to_lower, trim_space}
use abstraction_model.Strings.Case.{
  IsCaseless, cut-to_lower, lower_both, to_lower-to_lower, trim_space-to_lower,
}
use abstraction_model.Identity.Parts.{
  all_words, behind, normalize, open_cache, parts, strip_scheme, without_publisher,
}

behind-lower_both :
    (s : Bytes) (o : Option (Bytes × Bytes))
    → behind (to_lower s) (Option.map lower_both o) ≡ to_lower (behind s o)
behind-lower_both s none = refl
behind-lower_both s (some (a, b)) = refl

scheme_mark-IsCaseless : All IsCaseless (codes "://")
unfolding lower_byte
scheme_mark-IsCaseless = ((λ c. ground arith), ((λ c. ground arith), ((λ c. ground arith), tt)))

strip_scheme-to_lower : (s : Bytes) → strip_scheme (to_lower s) ≡ to_lower (strip_scheme s)
unfolding strip_scheme
strip_scheme-to_lower s =
    ap (behind (to_lower s)) (cut-to_lower b':' (codes "//") s scheme_mark-IsCaseless)
    ∙ behind-lower_both s (cut (codes "://") s)

normalize-to_lower : (s : Bytes) → normalize (to_lower s) ≡ normalize s
unfolding normalize
normalize-to_lower s = ap open_cache (
    ap (λ (x : Bytes). to_lower (trim_space x)) (strip_scheme-to_lower s)
    ∙ ap to_lower (trim_space-to_lower (strip_scheme s))
    ∙ to_lower-to_lower (trim_space (strip_scheme s)))

-- Strings that differ in the case of their letters only are cut into the same words.
pub parts-case : (a b : Bytes) → to_lower a ≡ to_lower b → parts a ≡ parts b
unfolding parts
parts-case a b e =
    ap (λ (x : Bytes). all_words (without_publisher (split b'/' x)))
      (sym (normalize-to_lower a) ∙ ap normalize e ∙ normalize-to_lower b)
