-- ===== src/Strings/Cut.antt =====
-- The two slices at a byte, and what splitting and joining keep of a text.
use mathlib.Core.Path.{ap₂}
use abstraction_model.Base.{
  All, All-append, Bool, Bool-cases, Bytes, List, [], ap, arith, inl, inr, none, refl, some, sym,
  true, ℕ, ◌++◌, ◌==◌, ◌∙◌, ◌∷◌, ◌≡◌, ◌≢◌, ◌⊎◌,
}
use abstraction_model.Strings.{add_first, cut_at, cut_byte, cut_prefix, join, split, split_by}
use abstraction_model.Strings.Fields.{Lacks, split_by-Lacks, split_by-ne-nil}

-- The byte does not stand in the text.
abbrev pub Misses : ℕ → Bytes → Type 0
Misses b = Lacks (λ c. c == b)

==_self : (b : ℕ) → (b == b) ≡ true
==_self b = ground arith

pub cut_byte-append : (b : ℕ) (p t : Bytes) → Misses b p → cut_byte b (p ++ b ∷ t) ≡ some (p, t)
unfolding cut_byte
cut_byte-append b [] t h = rw (==_self b)
cut_byte-append b (c ∷ p) t (h, hs) = rw (h, cut_byte-append b p t hs)

pub cut_byte-none : (b : ℕ) (p : Bytes) → Misses b p → cut_byte b p ≡ none
unfolding cut_byte
cut_byte-none b [] h = refl
cut_byte-none b (c ∷ p) (h, hs) = rw (h, cut_byte-none b p hs)

pub cut_at-append : (b : ℕ) (p t : Bytes) → Misses b p → cut_at b (p ++ b ∷ t) ≡ (p, t)
unfolding cut_at
cut_at-append b p t h = rw (cut_byte-append b p t h)

pub cut_at_none : (b : ℕ) (p : Bytes) → Misses b p → cut_at b p ≡ (p, [])
unfolding cut_at
cut_at_none b p h = rw (cut_byte-none b p h)

-- Where a cut finds its byte: what stands before it misses the byte, and the slices spell the text.
pub cut_byte-some :
    (b : ℕ) (s : Bytes)
    → ((cut_byte b s ≡ none) × Misses b s)
      ⊎ ((p : Bytes) × (t : Bytes) × (cut_byte b s ≡ some (p, t)) × Misses b p × (s ≡ p ++ b ∷ t))
unfolding cut_byte
cut_byte-some b [] = inl (refl, tt)
cut_byte-some b (c ∷ s) = elim (Bool-cases (c == b)) [
  | inl h ↦ let e : c ≡ b = ground arith in inr ([], s, rw h, tt, ap (λ (x : ℕ). x ∷ s) e)
  | inr h ↦ elim (cut_byte-some b s) [
    | inl (n, m) ↦ inl (rw (h, n), (h, m))
    | inr (p, t, e, m, q) ↦ inr (c ∷ p, t, rw (h, e), (h, m), ap (◌∷◌ c) q)
  ]
]

module _ {ℓ} (P : ℕ → Type ℓ) where
  All-left : (p t : Bytes) → All P (p ++ t) → All P p
  All-left [] t h = tt
  All-left (c ∷ p) t (h, hs) = (h, All-left p t hs)

  All-right : (p t : Bytes) → All P (p ++ t) → All P t
  All-right [] t h = h
  All-right (c ∷ p) t (h, hs) = All-right p t hs

  pub cut_at-All : (b : ℕ) (s : Bytes) → All P s → All P (cut_at b s).0 × All P (cut_at b s).1
  unfolding cut_at
  cut_at-All b s h = elim (cut_byte-some b s) [
    | inl (n, m) ↦ rw n (h, tt)
    | inr (p, t, e, m, q) ↦
        let k : All P (p ++ b ∷ t) = rw q at h in
        rw e (All-left p (b ∷ t) k, (All-right p (b ∷ t) k).1)
  ]

  split_by-All : (test : ℕ → Bool) (s : Bytes) → All P s → All (All P) (split_by test s)
  unfolding split_by
  split_by-All test [] h = (tt, tt)
  split_by-All test (c ∷ s) (h, hs) = elim (Bool-cases (test c)) [
    | inl e ↦ rw e (tt, split_by-All test s hs)
    | inr e ↦ rw e (add_first-All c (split_by test s) h (split_by-All test s hs))
  ]
    where
      add_first-All :
          (c : ℕ) (ps : List Bytes) → P c → All (All P) ps → All (All P) (add_first c ps)
      add_first-All c [] h k = ((h, tt), tt)
      add_first-All c (p ∷ ps) h (k, ks) = ((h, k), ks)

  pub split-All : (sep : ℕ) (s : Bytes) → All P s → All (All P) (split sep s)
  unfolding split
  split-All sep s h = split_by-All (λ c. c == sep) s h

  pub join-All : (sep : Bytes) (ps : List Bytes) → All P sep → All (All P) ps → All P (join sep ps)
  unfolding join
  join-All sep [] h k = tt
  join-All sep (p ∷ []) h k = k.0
  join-All sep (p ∷ (q ∷ ps)) h (k, ks) =
      All-append P p _ k (All-append P sep _ h (join-All sep (q ∷ ps) h ks))

pub cut_at-Misses : (b : ℕ) (s : Bytes) → Misses b (cut_at b s).0
unfolding cut_at
cut_at-Misses b s = elim (cut_byte-some b s) [ inl (n, m) ↦ rw n m | inr (p, t, e, m, q) ↦ rw e m ]

pub split-Misses : (sep : ℕ) (s : Bytes) → All (Misses sep) (split sep s)
unfolding split
split-Misses sep s = split_by-Lacks (λ c. c == sep) s

join-add_first :
    (sep : Bytes) (c : ℕ) (ps : List Bytes) → ps ≢ [] → join sep (add_first c ps) ≡ c ∷ join sep ps
unfolding join
join-add_first sep c [] n = absurd (n refl)
join-add_first sep c (p ∷ []) n = refl
join-add_first sep c (p ∷ (q ∷ ps)) n = refl

join-cons :
    (sep p : Bytes) (ps : List Bytes) → ps ≢ [] → join sep (p ∷ ps) ≡ p ++ (sep ++ join sep ps)
unfolding join
join-cons sep p [] n = absurd (n refl)
join-cons sep p (q ∷ ps) n = refl

-- Joining the parts of a split gives the text back.
pub join-split : (sep : ℕ) (s : Bytes) → join (sep ∷ []) (split sep s) ≡ s
unfolding split split_by
join-split sep [] = unfold join in refl
join-split sep (c ∷ s) = elim (Bool-cases (c == sep)) [
  | inl h ↦
      let e : c ≡ sep = ground arith in
      rw h (join-cons (sep ∷ []) [] _ (split_by-ne-nil _ s) ∙ ap₂ (◌∷◌) (sym e) (join-split sep s))
  | inr h ↦
      rw h (join-add_first (sep ∷ []) c _ (split_by-ne-nil _ s) ∙ ap (◌∷◌ c) (join-split sep s))
]

pub cut_prefix-some : (pre s rest : Bytes) → cut_prefix pre s ≡ some rest → s ≡ pre ++ rest
unfolding cut_prefix
cut_prefix-some [] s rest e = ground arith
cut_prefix-some (p ∷ pre) [] rest e = absurd (ground arith)
cut_prefix-some (p ∷ pre) (c ∷ s) rest e = elim (Bool-cases (p == c)) [
  | inl h ↦
      let same : c ≡ p = ground arith in
      ap (λ (x : ℕ). x ∷ s) same ∙ ap (◌∷◌ p) (cut_prefix-some pre s rest (rw h at e))
  | inr h ↦ absurd (ground arith)
]
