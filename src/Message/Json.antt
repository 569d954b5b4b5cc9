-- ===== src/Message/Json.antt =====
-- JSON values as the writers spell them, described without the reader, and the frames that carry them.
use mathlib.Core.Path.{ap, ◌∙◌}
use abstraction_model.Base.{
  Bytes, List, [], codes, contains, equal, false, ok, refl, suc, true, zero, ℕ, ◌++◌, ◌∷◌, ◌≡◌,
}
use abstraction_model.Codec.{at, esc, skip_white, valid_utf8}
use abstraction_model.Record.{object}
use abstraction_model.Number.{literal}
use abstraction_model.Raw.{skip_switch, skip_value, sort_of}
use abstraction_model.Raw.Walk.{Walks, ended, item, skip_value-esc, skip_value-object}
use abstraction_model.Message.Envelope.{ServiceFrame, decode_frame, enc_frame}
use abstraction_model.Message.Frames.{IsInt32, IsRaw, decode_frame-enc_frame}

-- A value as the writers spell it, in which at most `room` containers stand inside one another: a string, a
-- word, or an object with names that differ.
mutual
  pub data Json : ℕ → Bytes → Type 0 where
    a_string : {room : ℕ} (word : Bytes) → valid_utf8 word ≡ true → Json room (esc word)
    a_true : {room : ℕ} → Json room (codes "true")
    a_false : {room : ℕ} → Json room (codes "false")
    a_null : {room : ℕ} → Json room (codes "null")
    an_object :
        {room : ℕ} (d : ℕ) {name text : Bytes} {ms : List (Bytes × Bytes)}
        → Members room [] ((name, text) ∷ ms)
        → Json (suc room) (object d ((name, text) ∷ ms))

  pub data Members : ℕ → List Bytes → List (Bytes × Bytes) → Type 0 where
    no_more : {room : ℕ} {seen : List Bytes} → Members room seen []
    a_member :
        {room : ℕ} {seen : List Bytes} (name : Bytes) {text : Bytes} {ms : List (Bytes × Bytes)}
        → valid_utf8 name ≡ true
        → contains name seen ≡ false
        → Json room text
        → Members room (name ∷ seen) ms
        → Members room seen ((name, text) ∷ ms)

true-IsRaw : (room : ℕ) → IsRaw room (codes "true")
unfolding skip_value skip_switch sort_of skip_white literal at equal
true-IsRaw zero rest = (refl, refl)
true-IsRaw (suc room) rest = (refl, refl)

false-IsRaw : (room : ℕ) → IsRaw room (codes "false")
unfolding skip_value skip_switch sort_of skip_white literal at equal
false-IsRaw zero rest = (refl, refl)
false-IsRaw (suc room) rest = (refl, refl)

null-IsRaw : (room : ℕ) → IsRaw room (codes "null")
unfolding skip_value skip_switch sort_of skip_white literal at equal
null-IsRaw zero rest = (refl, refl)
null-IsRaw (suc room) rest = (refl, refl)

mutual
  unfolding skip_white esc object

  pub Json-IsRaw : {room : ℕ} {text : Bytes} → Json room text → IsRaw room text
  Json-IsRaw {room = room} (a_string word good) rest = (skip_value-esc room word rest good, refl)
  Json-IsRaw {room = room} a_true rest = true-IsRaw room rest
  Json-IsRaw {room = room} a_false rest = false-IsRaw room rest
  Json-IsRaw {room = room} a_null rest = null-IsRaw room rest
  Json-IsRaw (an_object {room = room} d {name = name} {text = text} {ms = ms} members) rest =
      (skip_value-object room d name text ms rest (Members-Walks members), refl)

  Members-Walks :
      {room : ℕ} {seen : List Bytes} {ms : List (Bytes × Bytes)}
      → Members room seen ms
      → Walks (skip_value room) seen ms
  Members-Walks no_more = ended _
  Members-Walks (a_member {room = room} name {text = text} good new value members) =
      item name text good new
        (λ rest _. ap (skip_value room) (Json-IsRaw value rest).1 ∙ (Json-IsRaw value rest).0)
        (Members-Walks members)

-- A frame with a version that is an int32, with names that are valid texts, and with arguments that are a
-- string, a word or an object of these, as the writers spell them and nested no deeper than the reader
-- still goes, is read back whole, whatever stands behind it: its version, its two names, and its arguments
-- byte for byte.
pub decode_frame-Json :
    (v : ServiceFrame) (room d : ℕ) (rest : Bytes)
    → IsInt32 v.version
    → valid_utf8 v.service ≡ true
    → valid_utf8 v.method ≡ true
    → Json room v.arguments
    → decode_frame (suc room) (enc_frame v d ++ rest) ≡ ok (v, rest)
decode_frame-Json v room d rest version service method arguments =
    decode_frame-enc_frame v room d rest (version, service, method, Json-IsRaw arguments)
