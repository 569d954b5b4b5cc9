-- ===== src/Strings/Fields.antt =====
-- Splitting at bytes of a kind, and joining: what the parts hold, and when one undoes the other.
use abstraction_model.Base.{
  All, Bool, Bool-cases, Bytes, List, [], ap, false, inl, inr, refl, sym, true, ℕ, ◌++◌, ◌∙◌, ◌∷◌,
  ◌≡◌, ◌≢◌,
}
use abstraction_model.Strings.{add_first, drop_empty, fields, join, split_by}

-- No byte of the text passes the test.
abbrev pub Lacks : (ℕ → Bool) → Bytes → Type 0
Lacks test = All (λ c. test c ≡ false)

add_first-Lacks :
    (test : ℕ → Bool) (c : ℕ) (ps : List Bytes)
    → test c ≡ false
    → All (Lacks test) ps
    → All (Lacks test) (add_first c ps)
add_first-Lacks test c [] h k = ((h, tt), tt)
add_first-Lacks test c (p ∷ ps) h (k, ks) = ((h, k), ks)

pub split_by-Lacks : (test : ℕ → Bool) (s : Bytes) → All (Lacks test) (split_by test s)
unfolding split_by
split_by-Lacks test [] = (tt, tt)
split_by-Lacks test (c ∷ s) = elim (Bool-cases (test c)) [
  | inl h ↦ rw h (tt, split_by-Lacks test s)
  | inr h ↦ rw h (add_first-Lacks test c _ h (split_by-Lacks test s))
]

pub drop_empty-All {ℓ} :
    (P : Bytes → Type ℓ) (ps : List Bytes) → All P ps → All (λ p. (p ≢ []) × P p) (drop_empty ps)
unfolding drop_empty
drop_empty-All P [] h = tt
drop_empty-All P ([] ∷ ps) h = drop_empty-All P ps h.1
drop_empty-All P ((c ∷ p) ∷ ps) h = (((λ e. cc), h.0), drop_empty-All P ps h.1)

-- A field is not empty and holds no separator.
pub fields-Lacks :
    (test : ℕ → Bool) (s : Bytes) → All (λ p. (p ≢ []) × Lacks test p) (fields test s)
unfolding fields
fields-Lacks test s = drop_empty-All (Lacks test) (split_by test s) (split_by-Lacks test s)

add_first-ne-nil : (c : ℕ) (ps : List Bytes) → add_first c ps ≢ []
add_first-ne-nil c [] = λ e. cc
add_first-ne-nil c (p ∷ ps) = λ e. cc

pub split_by-ne-nil : (test : ℕ → Bool) (s : Bytes) → split_by test s ≢ []
unfolding split_by
split_by-ne-nil test [] = λ e. cc
split_by-ne-nil test (c ∷ s) = elim (Bool-cases (test c)) [
  | inl h ↦ rw h (λ e. cc)
  | inr h ↦ rw h (add_first-ne-nil c (split_by test s))
]

pub split_by_one : (test : ℕ → Bool) (p : Bytes) → Lacks test p → split_by test p ≡ p ∷ []
unfolding split_by
split_by_one test [] h = refl
split_by_one test (c ∷ p) (h, hs) = rw (h, split_by_one test p hs)

pub split_by-append :
    (test : ℕ → Bool) (p : Bytes) (c : ℕ) (s : Bytes)
    → Lacks test p
    → test c ≡ true
    → split_by test (p ++ c ∷ s) ≡ p ∷ split_by test s
unfolding split_by
split_by-append test [] c s h k = rw k
split_by-append test (d ∷ p) c s (h, hs) k = rw (h, split_by-append test p c s hs k)

-- Splitting a join gives the parts back, if there is a part and none holds the separator.
pub split_by-join :
    (test : ℕ → Bool) (c : ℕ) (ps : List Bytes)
    → test c ≡ true
    → ps ≢ []
    → All (Lacks test) ps
    → split_by test (join (c ∷ []) ps) ≡ ps
unfolding join
split_by-join test c [] k n h = absurd (n refl)
split_by-join test c (p ∷ []) k n h = split_by_one test p h.0
split_by-join test c (p ∷ (q ∷ ps)) k n h =
    split_by-append test p c (join (c ∷ []) (q ∷ ps)) h.0 k
    ∙ ap (◌∷◌ p) (split_by-join test c (q ∷ ps) k (λ e. cc) h.1)

-- A join of parts that are not empty is empty for no part only.
pub join-ne-nil : (sep p : Bytes) (ps : List Bytes) → p ≢ [] → join sep (p ∷ ps) ≢ []
unfolding join
join-ne-nil sep [] ps n = absurd (n refl)
join-ne-nil sep (c ∷ p) [] n = λ e. cc
join-ne-nil sep (c ∷ p) (q ∷ ps) n = λ e. cc

pub join-nil : (sep : Bytes) → join sep [] ≡ []
unfolding join
join-nil sep = refl

abbrev pub IsClean : (ℕ → Bool) → Bytes → Type 0
IsClean test p = (p ≢ []) × Lacks test p

IsClean-Lacks : (test : ℕ → Bool) (ps : List Bytes) → All (IsClean test) ps → All (Lacks test) ps
IsClean-Lacks test [] h = tt
IsClean-Lacks test (p ∷ ps) h = (h.0.1, IsClean-Lacks test ps h.1)

-- Lists of parts that are not empty and hold no separator are told apart by their joins.
pub join-injective :
    (test : ℕ → Bool) (c : ℕ) (ps qs : List Bytes)
    → test c ≡ true
    → All (IsClean test) ps
    → All (IsClean test) qs
    → join (c ∷ []) ps ≡ join (c ∷ []) qs
    → ps ≡ qs
join-injective test c [] [] k hp hq e = refl
join-injective test c [] (q ∷ qs) k hp hq e =
    absurd (join-ne-nil (c ∷ []) q qs hq.0.0 (sym e ∙ join-nil _))
join-injective test c (p ∷ ps) [] k hp hq e =
    absurd (join-ne-nil (c ∷ []) p ps hp.0.0 (e ∙ join-nil _))
join-injective test c (p ∷ ps) (q ∷ qs) k hp hq e =
    sym (split_by-join test c (p ∷ ps) k (λ e. cc) (IsClean-Lacks test (p ∷ ps) hp))
    ∙ ap (split_by test) e
    ∙ split_by-join test c (q ∷ qs) k (λ e. cc) (IsClean-Lacks test (q ∷ qs) hq)
