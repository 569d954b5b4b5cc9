-- ===== src/Codec/Bounds.antt =====
-- What a reader of rec.go may do with the buffer: it goes forward only, and what it refuses with is
-- one of the words of `refusals`.
use Prim.Native.Nat.{◌≤◌}
use mathlib.Core.Path.{subst}
use abstraction_model.Base.{
  Bool, Bool-cases, Bytes, List, Option, Result, [], arith, codes, contains, drop, equal, err,
  false, if◌then◌else◌, inl, inr, leb, length, ltb, none, ok, refl, some, suc, true, zero, ℕ, ◌&&◌,
  ◌++◌, ◌==◌, ◌>>=◌, ◌||◌, ◌∷◌, ◌≡◌, ◌≤◌,
}
use abstraction_model.Codec.{
  Refusal, backslash, closing, control, escape, hex4, kind_of, low_half, plain_byte, refuse, str,
  str_loop, surrogate, unicode, valid_utf8,
}

-- refusals.
abbrev pub refusals : List Bytes
refusals =
    codes "malformed"
    ∷ codes "bad_string"
    ∷ codes "number_spelling"
    ∷ codes "wrong_type"
    ∷ codes "depth_exceeded"
    ∷ codes "duplicate_key"
    ∷ codes "duplicate_field"
    ∷ codes "unknown_field"
    ∷ codes "missing_field"
    ∷ codes "bad_enum"
    ∷ codes "trailing_bytes"
    ∷ []

abbrev pub rank_in : List Bytes → ℕ → Bytes → Option ℕ
rank_in [] i word = none
rank_in (w ∷ ws) i word =
    let rest = rank_in ws (suc i) word in if equal w word then some i else rest

-- refusalRank; none is -1.
unfoldable pub refusal_rank : Bytes → Option ℕ
refusal_rank = rank_in refusals 0

-- What is left behind a value.
abbrev pub behind : {A : Type 0} → A × Bytes → Bytes
behind (a, rest) = rest

-- A result that leaves no more than `n` bytes, `left` saying which; or a refusal with one of the words,
-- whose offset has no more than `n` bytes behind it.
abbrev pub Within : {A : Type 0} → (A → Bytes) → ℕ → Result Refusal A → Type 0
Within left n (ok a) = length (left a) ≤ n
Within left n (err e) = (contains e.word refusals ≡ true) × (length e.left ≤ n)

pub Within-≤ :
    {A : Type 0} (left : A → Bytes) {n m : ℕ} (r : Result Refusal A)
    → n ≤ m
    → Within left n r
    → Within left m r
Within-≤ left (ok a) h w = omega arith
Within-≤ left (err e) h (known, w) = (known, omega arith)

pub if-Within :
    {A : Type 0} (left : A → Bytes) (n : ℕ) (b : Bool) (x y : Result Refusal A)
    → Within left n x
    → Within left n y
    → Within left n (if b then x else y)
if-Within left n true x y w v = w
if-Within left n false x y w v = v

-- A case distinction, whose arms may use what the test says.
pub elim-Within :
    {A : Type 0} (left : A → Bytes) (n : ℕ) (b : Bool) (x y : Result Refusal A)
    → (b ≡ true → Within left n x)
    → (b ≡ false → Within left n y)
    → Within left n (elim b [ true ↦ x | false ↦ y ])
elim-Within left n true x y w v = w refl
elim-Within left n false x y w v = v refl

pub Within-ok :
    {A : Type 0} (left : A → Bytes) (n : ℕ) {r : Result Refusal A} {a : A}
    → Within left n r
    → r ≡ ok a
    → length (left a) ≤ n
Within-ok left n w same = subst (Within left n) same w

-- Two steps, the second of which stays within what the first leaves.
pub >>=-Within :
    {A B : Type 0} (here : A → Bytes) (there : B → Bytes) (n : ℕ) (first : Result Refusal A)
    (next : A → Result Refusal B)
    → Within here n first
    → ((a : A) → first ≡ ok a → Within there (length (here a)) (next a))
    → Within there n (first >>= next)
>>=-Within here there n (ok a) next w after = Within-≤ there (next a) w (after a refl)
>>=-Within here there n (err e) next w after = w

pub length-drop : (n : ℕ) (s : Bytes) → length (drop n s) ≤ length s
length-drop zero s = omega arith
length-drop (suc n) [] = omega arith
length-drop (suc n) (c ∷ s) = omega (arith, length-drop n s)

-- An escape refuses within the buffer.
nothing : Bytes × ℕ → Bytes
nothing p = []

low_half-Within : (u : ℕ) (s : Bytes) (o : Option ℕ) → Within nothing (length s) (low_half u s o)
unfolding contains equal nothing
low_half-Within u s none = (refl, omega arith)
low_half-Within u s (some lo) = elim (Bool-cases (ltb lo 56320 || ltb 57343 lo)) [
  | inl e ↦ rw e (refl, length-drop 4 s)
  | inr e ↦ rw e (omega arith)
]

surrogate-Within : (u : ℕ) (s : Bytes) → Within nothing (length s) (surrogate u s)
unfolding contains equal nothing
surrogate-Within u [] = (refl, omega arith)
surrogate-Within u (a ∷ []) = (refl, omega arith)
surrogate-Within u (a ∷ (b ∷ s)) = elim (Bool-cases (a == 92 && b == b'u')) [
  | inl e ↦
      rw e (Within-≤ nothing (low_half u s (hex4 s)) (omega arith) (low_half-Within u s (hex4 s)))
  | inr e ↦ rw e (refl, omega arith)
]

unicode-Within : (s : Bytes) (o : Option ℕ) → Within nothing (length s) (unicode s o)
unfolding contains equal nothing
unicode-Within s none = (refl, omega arith)
unicode-Within s (some u) = elim (Bool-cases (leb 56320 u && leb u 57343)) [
  | inl e ↦ rw e (refl, length-drop 4 s)
  | inr e ↦ elim (Bool-cases (leb 55296 u && leb u 56319)) [
    | inl high ↦
        rw (e, high)
          (Within-≤ nothing (surrogate u (drop 4 s)) (length-drop 4 s)
            (surrogate-Within u (drop 4 s)))
    | inr low ↦ rw (e, low) (omega arith)
  ]
]

escape-Within : (s : Bytes) → Within nothing (length s) (escape s)
unfolding escape contains equal nothing
escape-Within [] = (refl, omega arith)
escape-Within (c ∷ s) =
    let n = suc (length s) in
    if-Within nothing n (c == 34 || c == 92 || c == b'/') _ _ (omega arith) (
      if-Within nothing n (c == b'b') _ _ (omega arith) (
        if-Within nothing n (c == b'f') _ _ (omega arith) (
          if-Within nothing n (c == b'n') _ _ (omega arith) (
            if-Within nothing n (c == b'r') _ _ (omega arith) (
              if-Within nothing n (c == b't') _ _ (omega arith) (
                if-Within nothing n (c == b'u') _ _
                  (Within-≤ nothing (unicode s (hex4 s)) (omega arith) (unicode-Within s (hex4 s)))
                  (refl, omega arith)))))))

str_loop-Within : (k : ℕ) (out s : Bytes) → Within behind (length s) (str_loop k out s)
unfolding str_loop contains equal
str_loop-Within k out [] = (refl, omega arith)
str_loop-Within (suc k) out (c ∷ s) =
    Within-≤ behind (str_loop k out s) (omega arith) (str_loop-Within k out s)
str_loop-Within zero out (c ∷ s) =
    elim (kind_of c)
      as (λ k. Within behind (suc (length s)) (elim k [
        | closing ↦ if valid_utf8 out then ok (out, s) else refuse "bad_string" s
        | control ↦ refuse "bad_string" (c ∷ s)
        | backslash ↦ elim (escape s) [
          | ok (bytes, n) ↦ str_loop n (out ++ bytes) s
          | err e ↦ err e
        ]
        | plain_byte ↦ str_loop 0 (out ++ c ∷ []) s
      ])) [
        | closing ↦
            if-Within behind (suc (length s)) (valid_utf8 out) _ _ (omega arith) (refl, omega arith)
        | control ↦ (refl, omega arith)
        | backslash ↦
            (elim (escape s)
                as (λ r.
                  Within nothing (length s) r
                  → Within behind (suc (length s))
                      (elim r [ ok (bytes, n) ↦ str_loop n (out ++ bytes) s | err e ↦ err e ])) [
                        | ok (bytes, n) ↦ λ _.
                            Within-≤ behind (str_loop n (out ++ bytes) s) (omega arith)
                              (str_loop-Within n (out ++ bytes) s)
                        | err e ↦ λ w. (w.0, omega (arith, w.1))
                      ])
              (escape-Within s)
        | plain_byte ↦
            Within-≤ behind (str_loop 0 (out ++ c ∷ []) s) (omega arith)
              (str_loop-Within 0 (out ++ c ∷ []) s)
      ]

pub str-Within : (s : Bytes) → Within behind (length s) (str s)
unfolding str contains equal
str-Within [] = (refl, omega arith)
str-Within (c ∷ s) = elim (Bool-cases (c == 34)) [
  | inl e ↦ rw e (Within-≤ behind (str_loop 0 [] s) (omega arith) (str_loop-Within 0 [] s))
  | inr e ↦ rw e (refl, omega arith)
]
