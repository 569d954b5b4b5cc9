-- ===== src/Identity/Parse/Hosts.antt =====
-- What of a host's spelling does not reach the name.
use abstraction_model.Base.{Bytes, List, [], ap, ◌++◌, ◌∷◌, ◌≡◌}
use abstraction_model.Strings.{to_lower}
use abstraction_model.Identity.Assemble.{assemble}
use abstraction_model.Identity.Parts.{parts}
use abstraction_model.Identity.Parts.Case.{parts-case}
use abstraction_model.Identity.Parts.Publisher.{IsPublisher, parts-publisher}
use abstraction_model.Identity.Parse.{gather, parse}

parse-parts : (a b : Bytes) → parts a ≡ parts b → parse a ≡ parse b
unfolding parse
parse-parts a b e = ap (λ (ps : List Bytes). assemble (gather [] [] ps).0 (gather [] [] ps).1) e

-- Two strings that differ in the case of their letters only have one family and one quantisation.
pub parse-case : (a b : Bytes) → to_lower a ≡ to_lower b → parse a ≡ parse b
parse-case a b e = parse-parts a b (parts-case a b e)

-- Under two accounts one path has one family and one quantisation, if neither account holds a colon
-- or a slash or looks like a Hugging Face cache folder.
pub parse-publisher :
    (p q s : Bytes) → IsPublisher p → IsPublisher q → parse (p ++ b'/' ∷ s) ≡ parse (q ++ b'/' ∷ s)
parse-publisher p q s h k = parse-parts _ _ (parts-publisher p q s h k)
