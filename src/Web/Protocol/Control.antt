-- ===== src/Web/Protocol/Control.antt =====
-- Which control messages decode, and to what.
use open_console.Prelude.{
  All, Bool-cases, List, Option, Text, [], ap, arith, codes, inl, inr, none, refl, some, subst, sym,
  text_eq, text_eq_iff, true, ℕ, ◌∷◌, ◌≡◌, ◌≢◌,
}
use open_console.Web.Json.{Json, nat, Fields, field, str, obj, arr, get}
use open_console.Web.Protocol.{
  is_one_of, prototype_names, FrameType, open_frame, data_frame, resize, ping, pong, close, error,
  inherited, type_name, on_prototype, type_of_name, Frame, decoded, ok, encode_control,
  decode_control, channel_of, control_frame, typed_frame, decode_type,
}

-- The types that `encodeControl` takes.
abbrev pub IsControl : FrameType → Type 0
IsControl data_frame = ⊥
IsControl (inherited k) = ⊥
IsControl _ = Unit

-- Decoding an encoded control message gives its type, channel and payload back.
pub decode_control-encode_control :
    (type : FrameType) (payload : Option Json) (channel : ℕ)
    → IsControl type
    → decode_control (some (encode_control type payload channel))
      ≡ ok (record { type = type; channel = nat channel; payload = decoded payload })
unfolding decode_control encode_control
decode_control-encode_control data_frame payload channel h = absurd h
decode_control-encode_control (inherited k) payload channel h = absurd h
decode_control-encode_control open_frame payload channel h = ground arith
decode_control-encode_control _ payload channel h = ground arith

-- Where a decoded type comes from: a control name of its own, or one that every object inherits.
abbrev pub Accepts : Text → FrameType → Type 0
Accepts name data_frame = ⊥
Accepts name (inherited k) = (k ≡ name) × (on_prototype name ≡ true)
Accepts name type = type_name type ≡ name

type_of_name-Accepts :
    (name : Text) (type : FrameType)
    → type ≢ data_frame
    → type_of_name name ≡ some type
    → Accepts name type
unfolding type_of_name type_name
type_of_name-Accepts name data_frame n h = absurd (n refl)
type_of_name-Accepts name (inherited k) n h = ground arith
type_of_name-Accepts name open_frame n h = ground (arith, text_eq_iff name (codes "OPEN"))
type_of_name-Accepts name resize n h = ground (arith, text_eq_iff name (codes "RESIZE"))
type_of_name-Accepts name ping n h = ground (arith, text_eq_iff name (codes "PING"))
type_of_name-Accepts name pong n h = ground (arith, text_eq_iff name (codes "PONG"))
type_of_name-Accepts name close n h = ground (arith, text_eq_iff name (codes "CLOSE"))
type_of_name-Accepts name error n h = ground (arith, text_eq_iff name (codes "ERROR"))

-- What a message must hold for `f` to be decoded from it.
pub record DecodesTo (envelope : Json) (f : Frame) : Type 0 where
  pub name : Text
  pub named : get (codes "type") envelope ≡ some (str name)
  pub accepts : Accepts name f.type
  pub channel : f.channel ≡ channel_of (get (codes "channel") envelope)
  pub payload : f.payload ≡ decoded (get (codes "payload") envelope)

abbrev pub frame_of : FrameType → Json → Frame
frame_of type envelope = record {
  type = type;
  channel = channel_of (get (codes "channel") envelope);
  payload = decoded (get (codes "payload") envelope);
}

frame_of-DecodesTo :
    (type : FrameType) (name : Text) (envelope : Json) (f : Frame)
    → get (codes "type") envelope ≡ some (str name)
    → type_of_name name ≡ some type
    → type ≢ data_frame
    → ok (frame_of type envelope) ≡ ok f
    → DecodesTo envelope f
frame_of-DecodesTo type name envelope f g t n h = subst (DecodesTo envelope) (cc h) (record {
  name = name;
  named = g;
  accepts = type_of_name-Accepts name type n t;
  channel = refl;
  payload = refl;
})

control_frame-DecodesTo :
    (type : FrameType) (name : Text) (envelope : Json) (f : Frame)
    → get (codes "type") envelope ≡ some (str name)
    → type_of_name name ≡ some type
    → control_frame type envelope ≡ ok f
    → DecodesTo envelope f
control_frame-DecodesTo data_frame name envelope f g t h = cc h
control_frame-DecodesTo open_frame name envelope f g t h =
    frame_of-DecodesTo open_frame name envelope f g t (λ e. cc e) h
control_frame-DecodesTo type name envelope f g t h =
    frame_of-DecodesTo type name envelope f g t (λ e. cc e) h

typed_frame-DecodesTo :
    (found : Option FrameType) (name : Text) (envelope : Json) (f : Frame)
    → get (codes "type") envelope ≡ some (str name)
    → type_of_name name ≡ found
    → typed_frame found (some (str name)) envelope ≡ ok f
    → DecodesTo envelope f
typed_frame-DecodesTo none name envelope f g t h = cc h
typed_frame-DecodesTo (some type) name envelope f g t h =
    control_frame-DecodesTo type name envelope f g t h

decode_type-DecodesTo :
    (found : Option Json) (envelope : Json) (f : Frame)
    → get (codes "type") envelope ≡ found
    → decode_type found envelope ≡ ok f
    → DecodesTo envelope f
decode_type-DecodesTo none envelope f g h = cc h
decode_type-DecodesTo (some (str name)) envelope f g h =
    typed_frame-DecodesTo (type_of_name name) name envelope f g refl h
decode_type-DecodesTo (some _) envelope f g h = cc h

-- A message decodes only if it is an object whose `type` is the name of the frame's type, and
-- that type is never DATA. The frame holds the message's channel, or 0 if that is no number, and
-- its payload. The name is one of the six control names or one that every object inherits.
pub decode_control-DecodesTo :
    (parsed : Option Json) (f : Frame)
    → decode_control parsed ≡ ok f
    → (envelope : Json) × (parsed ≡ some envelope) × DecodesTo envelope f
unfolding decode_control
decode_control-DecodesTo none f h = cc h
decode_control-DecodesTo (some (obj fs)) f h =
    (obj fs, refl, decode_type-DecodesTo _ (obj fs) f refl h)
decode_control-DecodesTo (some (arr xs)) f h =
    (arr xs, refl, decode_type-DecodesTo _ (arr xs) f refl h)
decode_control-DecodesTo (some _) f h = cc h

is_one_of-All :
    (P : Text → Type 0) (k : Text) (ns : List Text) → is_one_of k ns ≡ true → All P ns → P k
unfolding is_one_of
is_one_of-All P k [] h all = absurd (cc h)
is_one_of-All P k (n ∷ ns) h all = elim (Bool-cases (text_eq k n)) [
  | inl same ↦ subst P (sym ((text_eq_iff k n).0 same)) all.0
  | inr other ↦ is_one_of-All P k ns (rw other at h) all.1
]

type_of_name-on_prototype : (k : Text) → on_prototype k ≡ true → type_of_name k ≡ some (inherited k)
unfolding type_of_name on_prototype
type_of_name-on_prototype k h =
    is_one_of-All (λ n. type_of_name n ≡ some (inherited n)) k prototype_names h
      (
        refl,
        (refl, (refl, (refl, (refl, (refl, (refl, (refl, (refl, (refl, (refl, (refl, tt))))))))))),
      )

-- Every name that Object.prototype defines is accepted as a control type, whatever else the
-- message holds, although the protocol has no such type.
pub decode_control-inherited :
    (name : Text) (rest : Fields)
    → on_prototype name ≡ true
    → decode_control (some (obj (field (codes "type") (str name) rest)))
      ≡ ok (frame_of (inherited name) (obj (field (codes "type") (str name) rest)))
unfolding decode_control
decode_control-inherited name rest h =
    ap (λ t. typed_frame t (some (str name)) (obj (field (codes "type") (str name) rest)))
      (type_of_name-on_prototype name h)
