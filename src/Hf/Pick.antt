-- ===== src/Hf/Pick.antt =====
-- The file that pick chooses: listed, asked for, the only one, and the same in every order of the
-- listing.
use mathlib.Core.List.{Memᴰ}
use mathlib.Core.List.{Permᴰ}
use mathlib.Core.Path.{fun_ext}
use abstraction_model.Base.{
  Bool, Bool-cases, Bytes, List, [], ap, arith, equal, equal_iff, false, inl, inr, ok, refl, true,
  ◌&&◌, ◌||◌, ◌↔◌, ◌∙◌, ◌∷◌, ◌≡◌, ◌⊎◌,
}
use abstraction_model.Ref.{Ref}
use abstraction_model.Hf.{
  HfFile, find_named, has_quant, is_gguf, matched, only_one, pick, pick_gguf, pick_quant, select,
}

-- What a reference that names no file asks for: a .gguf file whose name holds the quantisation,
-- if one is asked for, in any case.
unfoldable pub wanted : Bytes → HfFile → Bool
wanted quant f = is_gguf f && (equal quant [] || has_quant quant f)

select-select :
    (p q : HfFile → Bool) (fs : List HfFile) → select q (select p fs) ≡ select (λ f. p f && q f) fs
unfolding select
select-select p q [] = refl
select-select p q (f ∷ fs) = ground (arith, select-select p q fs)

select_congr :
    (p q : HfFile → Bool) (fs : List HfFile)
    → ((f : HfFile) → p f ≡ q f)
    → select p fs ≡ select q fs
select_congr p q fs h = ap (λ (t : HfFile → Bool). select t fs) (fun_ext h)

-- The files that a reference with no file name asks for.
unfoldable pub candidates : Bytes → List HfFile → List HfFile
candidates quant = select (wanted quant)

only_one-eq-ok : (fs : List HfFile) (f : HfFile) → (only_one fs ≡ ok f) ↔ (fs ≡ f ∷ [])
unfolding only_one
only_one-eq-ok [] f = ((λ e. absurd (ground arith)), (λ e. absurd (ground arith)))
only_one-eq-ok (g ∷ []) f = ((λ e. ground arith), (λ e. ground arith))
only_one-eq-ok (g ∷ (g' ∷ gs)) f = ((λ e. absurd (ground arith)), (λ e. absurd (ground arith)))

matched-eq-ok :
    (quant : Bytes) (fs : List HfFile) (f : HfFile) → (matched quant fs ≡ ok f) ↔ (fs ≡ f ∷ [])
matched-eq-ok quant [] f = ((λ e. absurd (ground arith)), (λ e. absurd (ground arith)))
matched-eq-ok quant (g ∷ gs) f = only_one-eq-ok (g ∷ gs) f

select_all : (fs : List HfFile) → select (λ f. true) fs ≡ fs
unfolding select
select_all [] = refl
select_all (f ∷ fs) = ap (◌∷◌ f) (select_all fs)

pick_quant-eq-ok :
    (quant : Bytes) (fs : List HfFile) (f : HfFile)
    → (pick_quant quant fs ≡ ok f) ↔ (select (λ g. equal quant [] || has_quant quant g) fs ≡ f ∷ [])
unfolding pick_quant
pick_quant-eq-ok quant fs f = elim (Bool-cases (equal quant [])) [
  | inl e ↦ rw (e, select_all fs) (only_one-eq-ok fs f)
  | inr e ↦ rw e (matched-eq-ok quant (select (has_quant quant) fs) f)
]

pick_gguf-eq-ok :
    (quant : Bytes) (fs : List HfFile) (f : HfFile)
    → (pick_gguf quant fs ≡ ok f) ↔ (select (λ g. equal quant [] || has_quant quant g) fs ≡ f ∷ [])
pick_gguf-eq-ok quant [] f =
    ((λ e. absurd (ground arith)), (λ e. unfold select in absurd (ground arith)))
pick_gguf-eq-ok quant (g ∷ gs) f = pick_quant-eq-ok quant (g ∷ gs) f

-- A reference that names no file picks a file exactly if that file is the only one, of all listed,
-- that is a .gguf file and whose name holds the quantisation asked for, in any case: there is no
-- guess between two files.
pub pick_iff :
    (files : List HfFile) (r : Ref) (f : HfFile)
    → r.file ≡ []
    → (pick files r ≡ ok f) ↔ (candidates r.quant files ≡ f ∷ [])
unfolding pick candidates wanted equal
pick_iff files r f e =
    rw (e, ← select-select is_gguf (λ g. equal r.quant [] || has_quant r.quant g) files)
      (pick_gguf-eq-ok r.quant (select is_gguf files) f)

module _ (test : HfFile → Bool) where
  select_perm_nil : {xs ys : List HfFile} → Permᴰ xs ys → select test xs ≡ [] → select test ys ≡ []
  unfolding select
  select_perm_nil Permᴰ.nil e = e
  select_perm_nil (Permᴰ.cons {a} {b} {l₁} {l₂} p t) e = ground (arith, select_perm_nil t)
  select_perm_nil (Permᴰ.swap p q) e = ground arith
  select_perm_nil (Permᴰ.trans s t) e = select_perm_nil t (select_perm_nil s e)

  select_perm :
      {xs ys : List HfFile} (f : HfFile)
      → Permᴰ xs ys
      → select test xs ≡ f ∷ []
      → select test ys ≡ f ∷ []
  unfolding select
  select_perm f Permᴰ.nil e = e
  select_perm f (Permᴰ.cons p t) e = ground (arith, select_perm f t, select_perm_nil t)
  select_perm f (Permᴰ.swap p q) e = ground arith
  select_perm f (Permᴰ.trans s t) e = select_perm f t (select_perm f s e)

-- For a reference that names no file, the order in which an origin lists its files does not matter: a file
-- that is picked from one order is picked from every other.
pub pick_perm :
    {xs ys : List HfFile} (r : Ref) (f : HfFile)
    → r.file ≡ []
    → Permᴰ xs ys
    → pick xs r ≡ ok f
    → pick ys r ≡ ok f
unfolding candidates
pick_perm {xs} {ys} r f e p h =
    (pick_iff ys r f e).1 (select_perm (wanted r.quant) f p ((pick_iff xs r f e).0 h))

find_named-ok :
    (name : Bytes) (fs : List HfFile) {f : HfFile}
    → find_named name fs ≡ ok f
    → Memᴰ f fs × (f.rfilename ≡ name)
unfolding find_named
find_named-ok name [] e = absurd (ground arith)
find_named-ok name (g ∷ fs) {f} e = elim (Bool-cases (equal g.rfilename name)) [
  | inl h ↦
      let s : f ≡ g = ground arith in
      (Memᴰ.head s, ap (λ (x : HfFile). x.rfilename) s ∙ (equal_iff g.rfilename name).0 h)
  | inr h ↦ let (m, n) = find_named-ok name fs (rw h at e) in (Memᴰ.tail m, n)
]

select-mem :
    (test : HfFile → Bool) (fs : List HfFile) (f : HfFile) (gs : List HfFile)
    → select test fs ≡ f ∷ gs
    → Memᴰ f fs × (test f ≡ true)
unfolding select
select-mem test [] f gs e = absurd (ground arith)
select-mem test (g ∷ fs) f gs e = elim (Bool-cases (test g)) [
  | inl h ↦ let s : f ≡ g = ground arith in (Memᴰ.head s, rw s h)
  | inr h ↦ let (m, n) = select-mem test fs f gs (rw h at e) in (Memᴰ.tail m, n)
]

pick_named :
    (files : List HfFile) (r : Ref) {f : HfFile}
    → equal r.file [] ≡ false
    → pick files r ≡ ok f
    → find_named r.file files ≡ ok f
unfolding pick
pick_named files r h e = rw h at e

-- A picked file is one of those listed, and is the file that the reference names, or a .gguf file
-- with the quantisation that it asks for.
pub pick-ok :
    (files : List HfFile) (r : Ref) {f : HfFile}
    → pick files r ≡ ok f
    → Memᴰ f files × ((f.rfilename ≡ r.file) ⊎ ((r.file ≡ []) × (wanted r.quant f ≡ true)))
pick-ok files r {f} e = elim (Bool-cases (equal r.file [])) [
  | inl h ↦
      let none_named = (equal_iff r.file []).0 h in
      let (m, w) =
        select-mem (wanted r.quant) files f []
          (unfold candidates in (pick_iff files r f none_named).0 e) in
      (m, inr (none_named, w))
  | inr h ↦ let (m, n) = find_named-ok r.file files (pick_named files r h e) in (m, inl n)
]
