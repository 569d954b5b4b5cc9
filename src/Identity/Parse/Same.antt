-- ===== src/Identity/Parse/Same.antt =====
-- When Same says that two strings name one model.
use abstraction_model.Base.{
  All, All-append, Bool-cases, Bytes, List, [], ap, arith, codes, equal, equal_iff, equal_self, inl,
  inr, refl, suc, sym, true, zero, ℕ, ◌++◌, ◌==◌, ◌↔◌, ◌∙◌, ◌∷◌, ◌≡◌, ◌≢◌,
}
use abstraction_model.Strings.{join}
use abstraction_model.Strings.Fields.{IsClean, fields-Lacks, join-injective, join-ne-nil, join-nil}
use abstraction_model.Identity.Assemble.{assemble, name_of, split_parts}
use abstraction_model.Identity.Assemble.Clean.{split_parts-IsClean}
use abstraction_model.Identity.Parts.{parts}
use abstraction_model.Identity.Parse.{family, gather, parse, same}
use abstraction_model.Identity.Tokens.{
  is_separator, keep_round, quant_run, raw_tokens, shard_run, skip_of, token_loop, tokens,
}

module _ {ℓ} (P : Bytes → Type ℓ) where
  keep_round-All :
      (t : Bytes) (ts kept quant : List Bytes)
      → P t
      → All P kept
      → All P (keep_round (t ∷ ts) (kept, quant)).0
  keep_round-All t ts kept quant h k = elim (Bool-cases (shard_run (t ∷ ts))) [
    | inl s ↦ rw s k
    | inr s ↦ elim (Bool-cases (quant_run (t ∷ ts) == 0)) [
      | inl z ↦ rw (s, z) (h, k)
      | inr z ↦ rw (s, z) k
    ]
  ]

  token_loop-All : (ts : List Bytes) (k : ℕ) → All P ts → All P (token_loop k ts).0
  unfolding token_loop
  token_loop-All [] k h = tt
  token_loop-All (t ∷ ts) (suc k) (h, hs) = token_loop-All ts k hs
  token_loop-All (t ∷ ts) zero (h, hs) =
      keep_round-All t ts _ _ h (token_loop-All ts (skip_of (t ∷ ts)) hs)

tokens-IsClean : (p : Bytes) → All (IsClean is_separator) (tokens p).0
unfolding tokens raw_tokens
tokens-IsClean p = token_loop-All (IsClean is_separator) _ 0 (fields-Lacks is_separator p)

gather-IsClean :
    (ps toks : List Bytes) (quant : Bytes)
    → All (IsClean is_separator) toks
    → All (IsClean is_separator) (gather toks quant ps).0
unfolding gather
gather-IsClean [] toks quant h = h
gather-IsClean (p ∷ ps) toks quant h =
    gather-IsClean ps (toks ++ (tokens p).0) _
      (All-append (IsClean is_separator) toks (tokens p).0 h (tokens-IsClean p))

-- The tokens of a string's words, in a row.
unfoldable pub all_tokens : Bytes → List Bytes
all_tokens s = (gather [] [] (parts s)).0

-- The base's parts, and behind them the roles, that a string states.
unfoldable pub stated : Bytes → List Bytes
stated s = (split_parts (all_tokens s)).0 ++ (split_parts (all_tokens s)).1

name_of-family :
    (bases roles : List Bytes) (quant : Bytes)
    → (name_of bases roles quant).family ≡ join (codes "-") (bases ++ roles)
unfolding name_of
name_of-family [] roles quant = refl
name_of-family (b ∷ bs) roles quant = refl

pub family-stated : (s : Bytes) → family s ≡ join (codes "-") (stated s)
unfolding family parse assemble stated all_tokens
family-stated s =
    name_of-family (split_parts (all_tokens s)).0 (split_parts (all_tokens s)).1
      (gather [] [] (parts s)).1

stated-IsClean : (s : Bytes) → All (IsClean is_separator) (stated s)
unfolding stated all_tokens
stated-IsClean s = split_parts-IsClean is_separator _ (gather-IsClean (parts s) [] [] tt)

family-injective : (a b : Bytes) → family a ≡ family b → stated a ≡ stated b
unfolding is_separator
family-injective a b e =
    join-injective is_separator b'-' (stated a) (stated b) refl (stated-IsClean a)
      (stated-IsClean b) (sym (family-stated a) ∙ e ∙ family-stated b)

family-nil : (a : Bytes) → stated a ≡ [] → family a ≡ []
family-nil a e = family-stated a ∙ ap (join (codes "-")) e ∙ join-nil (codes "-")

join_clean-ne-nil :
    (ps : List Bytes) → All (IsClean is_separator) ps → ps ≢ [] → join (codes "-") ps ≢ []
join_clean-ne-nil [] h n = absurd (n refl)
join_clean-ne-nil (p ∷ ps) h n = join-ne-nil (codes "-") p ps h.0.0

-- Two strings are the same model exactly if they state a token at all, and state the same base
-- parts and roles in the same order: the dashes that join a family's tokens merge no two names.
pub same_iff : (a b : Bytes) → (same a b ≡ true) ↔ ((stated a ≢ []) × (stated a ≡ stated b))
unfolding same
same_iff a b = (
  (λ h. (
    (λ e. ground (arith, family-nil a e, equal_self [])),
    family-injective a b (ground (arith, equal_iff (family a) (family b))),
  )),
  (λ h.
      let n : family a ≢ [] =
        λ e. join_clean-ne-nil (stated a) (stated-IsClean a) h.0 (sym (family-stated a) ∙ e) in
      let e : family a ≡ family b =
        family-stated a ∙ ap (join (codes "-")) h.1 ∙ sym (family-stated b) in
      ground (arith, equal_iff (family a) [], equal_iff (family a) (family b), n, e)),
)

-- Same is an equivalence on the strings that have a family: of three strings in a row that are the
-- same model, the converse, the composite and the reflexive pair hold too.
pub same_trans :
    (a b c : Bytes)
    → same a b ≡ true
    → same b c ≡ true
    → (same b a ≡ true) × (same a c ≡ true) × (same a a ≡ true)
unfolding same
same_trans a b c h k = (
  ground (arith, eq a b, eq b a, nil a, nil b),
  ground (arith, eq a b, eq b c, eq a c),
  ground (arith, eq a b, equal_self (family a)),
)
  where
    eq : (x y : Bytes) → (equal (family x) (family y) ≡ true) ↔ (family x ≡ family y)
    eq x y = equal_iff (family x) (family y)

    nil : (x : Bytes) → (equal (family x) [] ≡ true) ↔ (family x ≡ [])
    nil x = equal_iff (family x) []
