-- ===== src/Message/Bounds.antt =====
-- The readers of the records on arbitrary bytes: each gives a record or refuses with one of the words,
-- within the buffer.
use abstraction_model.Base.{
  Bool, Bool-cases, Bytes, List, Result, [], arith, codes, contains, equal, equal_iff, err, false,
  inl, inr, length, ok, refl, some, suc, sym, true, ℕ, ℤ, ◌+◌, ◌<◌, ◌∙◌, ◌∷◌, ◌≡◌, ◌≤◌, ◌⊎◌,
}
use abstraction_model.Ref.{Ref}
use abstraction_model.Codec.{Refusal, skip_white, str}
use abstraction_model.Codec.Bounds.{
  >>=-Within, Within, behind, if-Within, rank_in, refusal_rank, refusals, str-Within,
}
use abstraction_model.Number.Within.{boolean-Within, integer-Within}
use abstraction_model.Record.Bounds.{SetsWithin, Within-white, read_object-Within}
use abstraction_model.Number.{boolean, integer}
use abstraction_model.Raw.{raw_value}
use abstraction_model.Raw.Bounds.{raw_value-Within}
use abstraction_model.Message.Envelope.{
  bool_field, decode_frame, decode_reply, high_32, int_field, low_32, set_frame, set_reply,
}
use abstraction_model.Message.{
  decode_arguments, decode_ref, no_ref, raw_field, set_arguments, set_ref, text_field,
}
use abstraction_model.Endpoint.{alone_in, decode, depth_limit, nothing_left}

text_field-Within :
    {V : Type 0} (store : Bytes → V) (s : Bytes) → Within behind (length s) (text_field store s)
text_field-Within store s =
    >>=-Within behind behind (length s) (str s) _ (str-Within s) λ p _. omega arith

raw_field-Within :
    {V : Type 0} (store : Bytes → V) (room : ℕ) (s : Bytes)
    → Within behind (length s) (raw_field store room s)
raw_field-Within store room s =
    >>=-Within behind behind (length s) (raw_value room s) _ (raw_value-Within room s)
      λ p _. omega arith

int_field-Within :
    {V : Type 0} (store : ℤ → V) (s : Bytes) → Within behind (length s) (int_field store s)
int_field-Within store s =
    >>=-Within behind behind (length s) (integer low_32 high_32 s) _
      (integer-Within low_32 high_32 s) λ p _. omega arith

bool_field-Within :
    {V : Type 0} (store : Bool → V) (s : Bytes) → Within behind (length s) (bool_field store s)
bool_field-Within store s =
    >>=-Within behind behind (length s) (boolean s) _ (boolean-Within s) λ p _. omega arith

set_ref-Within : (room : ℕ) → SetsWithin (set_ref room)
unfolding set_ref contains equal
set_ref-Within room name v s =
    let n = length s in
    if-Within behind n (equal name (codes "registry")) _ _ (text_field-Within _ s) (
      if-Within behind n (equal name (codes "repo")) _ _ (text_field-Within _ s) (
        if-Within behind n (equal name (codes "revision")) _ _ (text_field-Within _ s) (
          if-Within behind n (equal name (codes "quant")) _ _ (text_field-Within _ s) (
            if-Within behind n (equal name (codes "file")) _ _ (text_field-Within _ s) (
              if-Within behind n (equal name (codes "credential")) _ _ (text_field-Within _ s)
                (refl, omega arith))))))

pub decode_ref-Within : (room : ℕ) (s : Bytes) → Within behind (length s) (decode_ref room s)
unfolding decode_ref
decode_ref-Within room s = read_object-Within set_ref no_ref _ room s set_ref-Within

set_arguments-Within : (room : ℕ) → SetsWithin (set_arguments room)
unfolding set_arguments contains equal
set_arguments-Within room name v s =
    if-Within behind (length s) (equal name (codes "ref")) _ _ (decode_ref-Within room s)
      (refl, omega arith)

pub decode_arguments-Within :
    (room : ℕ) (s : Bytes) → Within behind (length s) (decode_arguments room s)
unfolding decode_arguments
decode_arguments-Within room s =
    read_object-Within set_arguments no_ref _ room s set_arguments-Within

set_frame-Within : (room : ℕ) → SetsWithin (set_frame room)
unfolding set_frame contains equal
set_frame-Within room name v s =
    let n = length s in
    if-Within behind n (equal name (codes "version")) _ _ (int_field-Within _ s) (
      if-Within behind n (equal name (codes "service")) _ _ (text_field-Within _ s) (
        if-Within behind n (equal name (codes "method")) _ _ (text_field-Within _ s) (
          if-Within behind n (equal name (codes "arguments")) _ _ (raw_field-Within _ room s)
            (refl, omega arith))))

pub decode_frame-Within : (room : ℕ) (s : Bytes) → Within behind (length s) (decode_frame room s)
unfolding decode_frame
decode_frame-Within room s = read_object-Within set_frame _ _ room s set_frame-Within

set_reply-Within : (room : ℕ) → SetsWithin (set_reply room)
unfolding set_reply contains equal
set_reply-Within room name v s =
    let n = length s in
    if-Within behind n (equal name (codes "version")) _ _ (int_field-Within _ s) (
      if-Within behind n (equal name (codes "service")) _ _ (text_field-Within _ s) (
        if-Within behind n (equal name (codes "method")) _ _ (text_field-Within _ s) (
          if-Within behind n (equal name (codes "ok")) _ _ (bool_field-Within _ s) (
            if-Within behind n (equal name (codes "payload")) _ _ (raw_field-Within _ room s)
              (refl, omega arith)))))

pub decode_reply-Within : (room : ℕ) (s : Bytes) → Within behind (length s) (decode_reply room s)
unfolding decode_reply
decode_reply-Within room s = read_object-Within set_reply _ _ room s set_reply-Within

-- A value alone in a buffer.
none_left : {A : Type 0} → A → Bytes
none_left v = []

nothing_left-Within :
    {A : Type 0} (v : A) (s : Bytes) → Within none_left (length s) (nothing_left v s)
unfolding contains equal none_left
nothing_left-Within v [] = omega arith
nothing_left-Within v (c ∷ s) = (refl, omega arith)

alone_in-Within :
    {A : Type 0} (read : Bytes → Result Refusal (A × Bytes)) (s : Bytes)
    → ((t : Bytes) → Within behind (length t) (read t))
    → Within none_left (length s) (alone_in read s)
alone_in-Within read s within =
    >>=-Within behind none_left (length s) (read (skip_white s)) _
      (Within-white behind s (read (skip_white s)) (within (skip_white s)))
      λ p _.
        Within-white none_left p.1 (nothing_left p.0 (skip_white p.1))
          (nothing_left-Within p.0 (skip_white p.1))

equal-sym : (a b : Bytes) → equal a b ≡ false → equal b a ≡ false
equal-sym a b other = elim (Bool-cases (equal b a)) [
  | inl e ↦
      let same : a ≡ b = sym ((equal_iff b a).0 e) in
      absurd (cc (sym other ∙ (equal_iff a b).1 same))
  | inr e ↦ e
]

rank_in-contains :
    (words : List Bytes) (i : ℕ) (word : Bytes)
    → contains word words ≡ true
    → (k : ℕ) × (rank_in words i word ≡ some k) × (k < i + length words)
unfolding contains
rank_in-contains [] i word known = absurd (ground arith)
rank_in-contains (w ∷ ws) i word known = elim (Bool-cases (equal w word)) [
  | inl e ↦ (i, rw e refl, omega arith)
  | inr e ↦
      let other : equal word w ≡ false = equal-sym w word e in
      let later : contains word ws ≡ true = ground (arith, known, other) in
      let (k, found, bound) = rank_in-contains ws (suc i) word later in
      (k, (rw e found), omega (arith, bound))
]

-- A result within a buffer is a value, or a refusal with a rank and an offset in the buffer.
ends :
    {A : Type 0} (n : ℕ) (r : Result Refusal A)
    → Within none_left n r
    → ((v : A) × (r ≡ ok v))
      ⊎ ((e : Refusal) × (rank : ℕ) × (r ≡ err e)
          × (refusal_rank e.word ≡ some rank)
          × (rank < 11)
          × (length e.left ≤ n))
unfolding refusal_rank
ends n (ok v) within = inl (v, refl)
ends n (err e) (known, bound) =
    let (rank, found, small) = rank_in-contains refusals 0 e.word known in
    inr (e, rank, refl, found, omega (arith, small), bound)

-- Decode ends on every buffer: with a reference, or with a refusal whose word has a rank among the
-- eleven and whose offset lies in the buffer.
pub decode-ends :
    (s : Bytes)
    → ((v : Ref) × (decode s ≡ ok v))
      ⊎ ((e : Refusal) × (rank : ℕ) × (decode s ≡ err e)
          × (refusal_rank e.word ≡ some rank)
          × (rank < 11)
          × (length e.left ≤ length s))
unfolding decode
decode-ends s =
    ends (length s) (decode s)
      (alone_in-Within (decode_ref depth_limit) s (decode_ref-Within depth_limit))
