-- ===== src/Ref/Ollama.antt =====
-- ParseRef reads back what String prints for an ollama reference.
use abstraction_model.Base.{
  Bytes, Option, [], ap, arith, codes, equal, none, ok, refl, some, sym, ℕ, ◌++◌, ◌∙◌, ◌∷◌, ◌≡◌,
  ◌≢◌,
}
use abstraction_model.Strings.{cut, cut_last, cut_prefix, trim_space}
use abstraction_model.Strings.Cut.{Misses}
use abstraction_model.Ref.{Ref, ollama_ref, or_latest, parse_ollama, parse_ref, tagged, to_string}

-- The references that an ollama text can name: a name, and a tag that is not empty and holds no
-- colon.
pub record IsOllamaRef (r : Ref) : Type 0 where
  pub repo_ne_nil : r.repo ≢ []
  pub tag_ne_nil : r.revision ≢ []
  pub tag_plain : Misses b':' r.revision
  pub registry_is : r.registry ≡ codes "ollama"
  pub no_quant : r.quant ≡ []
  pub no_file : r.file ≡ []
  pub no_credential : r.credential ≡ []

cut_last-none : (b : ℕ) (s : Bytes) → Misses b s → cut_last b s ≡ none
unfolding cut_last
cut_last-none b [] h = refl
cut_last-none b (c ∷ s) (h, hs) = ground (arith, cut_last-none b s hs)

cut_last-append : (b : ℕ) (p s : Bytes) → Misses b s → cut_last b (p ++ b ∷ s) ≡ some (p, s)
unfolding cut_last
cut_last-append b [] s h = ground (arith, cut_last-none b s h)
cut_last-append b (c ∷ p) s h = ground (arith, cut_last-append b p s h)

abbrev ollama : Bytes → Bytes → Ref
ollama repo tag = record {
  registry = codes "ollama";
  repo = repo;
  revision = tag;
  quant = [];
  file = [];
  credential = [];
}

parse_ollama_print :
    (repo tag : Bytes)
    → repo ≢ []
    → tag ≢ []
    → Misses b':' tag
    → parse_ollama (repo ++ tagged (codes ":") tag) ≡ ok (ollama repo tag)
unfolding parse_ollama tagged ollama_ref equal
parse_ollama_print [] tag n m h = absurd (n refl)
parse_ollama_print (c ∷ repo) [] n m h = absurd (m refl)
parse_ollama_print (c ∷ repo) (t ∷ tag) n m h =
    ap
      (λ (o : Option (Bytes × Bytes)).
        ollama_ref (or_latest (c ∷ repo ++ b':' ∷ t ∷ tag) o).0
          (or_latest (c ∷ repo ++ b':' ∷ t ∷ tag) o).1)
      (cut_last-append b':' (c ∷ repo) (t ∷ tag) h)

to_string_ollama :
    (r : Ref)
    → r.registry ≡ codes "ollama"
    → to_string r ≡ codes "ollama://" ++ (r.repo ++ tagged (codes ":") r.revision)
unfolding to_string equal
to_string_ollama r e = rw e

parse_ref_ollama :
    (body : Bytes)
    → trim_space (codes "ollama://" ++ body) ≡ codes "ollama://" ++ body
    → parse_ref (codes "ollama://" ++ body) ≡ parse_ollama body
unfolding parse_ref cut cut_prefix equal
parse_ref_ollama body e = rw e

ollama-eq : {r : Ref} → IsOllamaRef r → r ≡ ollama r.repo r.revision
ollama-eq {r} h = λ i. record {
  registry = h.registry_is i;
  repo = r.repo;
  revision = r.revision;
  quant = h.no_quant i;
  file = h.no_file i;
  credential = h.no_credential i;
}

-- ParseRef reads an ollama reference back from the text that String prints for it, if its name and
-- its tag are not empty, the tag holds no colon, and the text has no white space at its ends.
pub parse_ref-to_string_ollama :
    {r : Ref}
    → IsOllamaRef r
    → trim_space (to_string r) ≡ to_string r
    → parse_ref (to_string r) ≡ ok r
parse_ref-to_string_ollama {r} h e =
    let p = to_string_ollama r h.registry_is in
    ap parse_ref p
    ∙ parse_ref_ollama _ (rw p at e)
    ∙ parse_ollama_print r.repo r.revision h.repo_ne_nil h.tag_ne_nil h.tag_plain
    ∙ sym (ap ok (ollama-eq h))
