-- ===== src/Record/Bounds.antt =====
-- The reader of objects stays within the buffer, refuses with the words of `refusals` only, and has
-- fuel enough on every buffer.
use Prim.Native.Nat.{◌≤◌}
use abstraction_model.Base.{
  Bool-cases, Bytes, List, Result, [], arith, contains, drop, equal, inl, inr, length, refl, suc,
  true, zero, ℕ, ◌<◌, ◌==◌, ◌||◌, ◌∷◌, ◌≡◌, ◌≤◌,
}
use abstraction_model.Codec.{Refusal, at, skip_white, str}
use abstraction_model.Codec.Bounds.{
  >>=-Within, Within, Within-ok, Within-≤, behind, elim-Within, if-Within, str-Within,
}
use abstraction_model.Record.{
  Setter, all_seen, body, enter, expect, key, members, once, read_object,
}

pub length-skip_white : (s : Bytes) → length (skip_white s) ≤ length s
unfolding skip_white
length-skip_white [] = omega arith
length-skip_white (c ∷ s) = elim (Bool-cases (c == b' ' || c == 9 || c == 10 || c == 13)) [
  | inl e ↦ rw e (omega (arith, length-skip_white s))
  | inr e ↦ rw e (omega arith)
]

pub length-drop_one : (s : Bytes) → length (drop 1 s) ≤ length s
length-drop_one [] = omega arith
length-drop_one (c ∷ s) = omega arith

-- Where a mark was found there is a byte to pass.
pub passes :
    (mark : ℕ) (s : Bytes) → 0 < mark → (at s == mark) ≡ true → length (drop 1 s) < length s
unfolding at
passes mark [] some_mark found = absurd (ground arith)
passes mark (c ∷ s) some_mark found = omega arith

abbrev pub all_of : Bytes → Bytes
all_of s = s

pub expect-Within : (want : ℕ) (s : Bytes) → Within all_of (length s) (expect want s)
unfolding expect contains equal
expect-Within want s =
    if-Within all_of (length s) (at s == want) _ _ (length-drop_one s) (refl, omega arith)

-- What comes behind white space.
pub Within-white :
    {A : Type 0} (left : A → Bytes) (s : Bytes) (r : Result Refusal A)
    → Within left (length (skip_white s)) r
    → Within left (length s) r
Within-white left s r w = Within-≤ left r (length-skip_white s) w

key-Within : (s : Bytes) → Within behind (length s) (key s)
unfolding key contains equal
key-Within s =
    elim-Within behind (length s) (at s == 34) _ _
      (λ _. >>=-Within behind behind (length s) (str s) _ (str-Within s) λ p _.
        >>=-Within all_of behind (length p.1) (expect b':' (skip_white p.1)) _
          (Within-white all_of p.1 (expect b':' (skip_white p.1))
            (expect-Within b':' (skip_white p.1)))
          λ u _. length-skip_white u)
      (λ _. (refl, omega arith))

enter-Within : (room : ℕ) (s : Bytes) → Within behind (length s) (enter room s)
unfolding enter contains equal
enter-Within zero s = (refl, omega arith)
enter-Within (suc room) s = length-drop_one s

module _ {V : Type 0} where
  -- A setter that stays within the buffer.
  abbrev pub SetsWithin : Setter V → Type 0
  SetsWithin set = (name : Bytes) (v : V) (s : Bytes) → Within behind (length s) (set name v s)

  once-Within : (set : Setter V) (seen : List Bytes) → SetsWithin set → SetsWithin (once set seen)
  unfolding contains equal
  once-Within set seen within name v s =
      if-Within behind (length s) (contains name seen) _ _ (refl, omega arith) (within name v s)

  -- The fuel of the loop is enough when it exceeds the bytes that are left.
  members-Within :
      (n : ℕ) (set : Setter V) (seen : List Bytes) (v : V) (s : Bytes)
      → SetsWithin set
      → length s < n
      → Within behind (length s) (members n set seen v s)
  unfolding members
  members-Within zero set seen v s within fuel = absurd (omega (arith, fuel))
  members-Within (suc n) set seen v s within fuel =
      >>=-Within behind behind (length s) (key (skip_white s)) _
        (Within-white behind s (key (skip_white s)) (key-Within (skip_white s)))
        λ p keyed.
          >>=-Within behind behind (length p.1) (once set seen p.0 v p.1) _
            (once-Within set seen within p.0 v p.1)
            λ q stored.
              let used : length p.1 ≤ length (skip_white s) =
                Within-ok behind (length (skip_white s)) (key-Within (skip_white s)) keyed in
              let left : length q.1 ≤ length p.1 =
                Within-ok behind (length p.1) (once-Within set seen within p.0 v p.1) stored in
              let spaces = length-skip_white q.1 in
              elim-Within behind (length q.1) (at (skip_white q.1) == 44) _ _
                (λ comma.
                  let shorter = passes 44 (skip_white q.1) (omega arith) comma in
                  Within-≤ behind (members n set (p.0 ∷ seen) q.0 (drop 1 (skip_white q.1)))
                    (omega (arith, shorter, spaces))
                    (members-Within n set (p.0 ∷ seen) q.0 (drop 1 (skip_white q.1)) within
                      (omega (arith, shorter, spaces, left, used, length-skip_white s, fuel))))
                (λ _. spaces)

  body-Within :
      (set : Setter V) (v : V) (s : Bytes)
      → SetsWithin set
      → Within behind (length s) (body set v s)
  unfolding body
  body-Within set v s within =
      if-Within behind (length s) (at s == b'}') _ _ (omega arith)
        (members-Within (suc (length s)) set [] v s within (omega arith))

  -- Whatever the buffer holds and whatever the record is, as long as its fields stay within the buffer,
  -- so does the record, and its fuel does not run out.
  pub read_object-Within :
      (set : ℕ → Setter V) (empty : V) (required : List Bytes) (room : ℕ) (s : Bytes)
      → ((inner : ℕ) → SetsWithin (set inner))
      → Within behind (length s) (read_object set empty required room s)
  unfolding read_object contains equal
  read_object-Within set empty required room s within =
      elim-Within behind (length s) (at s == b'{') _ _
        (λ _. >>=-Within behind behind (length s) (enter room s) _ (enter-Within room s) λ p _.
          >>=-Within behind behind (length p.1) (body (set p.0) empty (skip_white p.1)) _
            (Within-white behind p.1 (body (set p.0) empty (skip_white p.1))
              (body-Within (set p.0) empty (skip_white p.1) (within p.0)))
            λ q _.
              >>=-Within all_of behind (length q.1) (expect b'}' q.1) _ (expect-Within b'}' q.1)
                λ rest _.
                  if-Within behind (length rest) (all_seen required q.0.0) _ _ (omega arith)
                    (refl, omega arith))
        (λ _. (refl, omega arith))
