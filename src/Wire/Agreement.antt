-- ===== src/Wire/Agreement.antt =====
-- The frames of internal/protocol and those of web/src/protocol.ts are the same on the wire.
use open_console.Prelude.{
  ◌-◌, ◌<◌, ◌==◌, Bytes, Option, [], ◌^◌, ap, arith, codes, false, if◌then◌else◌, length, ltb, none,
  refl, some, subst, suc, zero, ℕ, ◌∙◌, ◌∷◌, ◌≡◌, ◌≤◌,
}
use open_console.Web.Json.{Json, Number, nat, str}
use open_console.Web.Protocol.{
  Frame, Payload, raw, decoded, encode_data, decode_binary, decode_control, data_frame, of_be32,
  FrameType, open_frame, resize, ping, pong, close, error, unknown_type, type_of_name,
  encode_control,
}
use open_console.Web.Protocol
use open_console.Web.Protocol.Binary.{decode_binary-encode_data}
use open_console.Web.Protocol.Control.{IsControl, decode_control-encode_control}
use open_console.Wire.{
  DataFrame, Result, header_len, marshal_binary, marshal_control, max_payload_len, ok, err,
  type_data, unmarshal_binary,
}

-- The channel and the payload of a frame that was read.
abbrev pub read_by_go : Result DataFrame → Option (ℕ × Bytes)
read_by_go (ok f) = some (f.channel, f.payload)
read_by_go (err e) = none

abbrev pub parts : Number → Payload → Option (ℕ × Bytes)
parts (nat channel) (raw payload) = some (channel, payload)
parts _ _ = none

abbrev pub read_by_browser : Protocol.Result Frame → Option (ℕ × Bytes)
read_by_browser (Protocol.ok f) = parts f.channel f.payload
read_by_browser (Protocol.err e) = none

long_enough : (payload : Bytes) → ltb (suc (suc (suc (suc (suc (length payload)))))) 5 ≡ false
long_enough payload = ground arith

-- A binary message is read alike by the Go side and by the browser, with the same channel and
-- payload or by neither, but that the Go side refuses a payload of more than 2^20 bytes.
pub unmarshal_binary-decode_binary :
    (b : Bytes)
    → read_by_go (unmarshal_binary b) ≡ (
        if ltb max_payload_len (length b - header_len)
        then none
        else read_by_browser (decode_binary b))
unfolding unmarshal_binary decode_binary
unmarshal_binary-decode_binary (t ∷ a ∷ b ∷ c ∷ d ∷ payload) = ground arith
unmarshal_binary-decode_binary [] = ground arith
unmarshal_binary-decode_binary (t ∷ []) = ground arith
unmarshal_binary-decode_binary (t ∷ a ∷ []) = ground arith
unmarshal_binary-decode_binary (t ∷ a ∷ b ∷ []) = ground arith
unmarshal_binary-decode_binary (t ∷ a ∷ b ∷ c ∷ []) = ground arith

-- A DATA frame on a channel below 2^32 with at most 2^20 bytes is written alike by both sides, and
-- what they write each of them reads back.
pub marshal_binary-encode_data :
    (channel : ℕ) (payload : Bytes)
    → channel < 2 ^ 32
    → length payload ≤ max_payload_len
    → (marshal_binary (record { type = type_data; channel = channel; payload = payload })
        ≡ ok (encode_data payload channel))
      × (unmarshal_binary (encode_data payload channel)
          ≡ ok (record { type = type_data; channel = channel; payload = payload }))
      × (decode_binary (encode_data payload channel)
          ≡ Protocol.ok
              (record { type = data_frame; channel = nat channel; payload = raw payload }))
unfolding marshal_binary encode_data unmarshal_binary
marshal_binary-encode_data channel payload h k = (
  ground arith,
  ground arith,
  decode_binary-encode_data payload channel
      ∙ ap (λ n. Protocol.ok (record { type = data_frame; channel = nat n; payload = raw payload }))
          (ground arith),
)

-- The browser's name for a control type of the Go side; it has none for WINDOW.
abbrev pub browser_type : ℕ → Option FrameType
browser_type t =
    if t == 1
    then some open_frame
    else if t == 3
    then some resize
    else if t == 4
    then some ping
    else if t == 5
    then some pong
    else if t == 6
    then some close
    else if t == 7
    then some error
    else none

-- What the browser makes of a control message of the Go side.
abbrev pub expected : Option FrameType → ℕ → Option Json → Protocol.Result Frame
expected (some t) channel payload =
    Protocol.ok (record { type = t; channel = nat channel; payload = decoded payload })
expected none channel payload = Protocol.err (unknown_type (some (str (codes "WINDOW"))))

ok-injective : (a b : Json) → ok a ≡ ok b → a ≡ b
ok-injective a b h = cc h

-- Both sides build the same message for a type that both have.
same_message :
    (t : FrameType) (channel : ℕ) (payload : Option Json) (message : Json)
    → IsControl t
    → ok (encode_control t payload channel) ≡ ok message
    → decode_control (some message) ≡ expected (some t) channel payload
same_message t channel payload message c h =
    subst (λ m. decode_control (some m) ≡ expected (some t) channel payload) (ok-injective _ _ h)
      (decode_control-encode_control t payload channel c)

-- A control message that the Go side writes the browser decodes to the same type, channel and
-- payload, unless its type is WINDOW: that message the browser refuses as of an unknown type.
pub decode_control-marshal_control :
    (type channel : ℕ) (payload : Option Json) (message : Json)
    → marshal_control type channel payload ≡ ok message
    → decode_control (some message) ≡ expected (browser_type type) channel payload
unfolding marshal_control encode_control
decode_control-marshal_control zero channel payload message h = absurd (cc h)
decode_control-marshal_control (suc zero) channel payload message h =
    same_message open_frame channel payload message tt h
decode_control-marshal_control (suc (suc zero)) channel payload message h = absurd (cc h)
decode_control-marshal_control (suc (suc (suc zero))) channel payload message h =
    same_message resize channel payload message tt h
decode_control-marshal_control (suc (suc (suc (suc zero)))) channel payload message h =
    same_message ping channel payload message tt h
decode_control-marshal_control (suc (suc (suc (suc (suc zero))))) channel payload message h =
    same_message pong channel payload message tt h
decode_control-marshal_control (suc (suc (suc (suc (suc (suc zero)))))) channel payload message h =
    same_message close channel payload message tt h
decode_control-marshal_control (suc (suc (suc (suc (suc (suc (suc zero))))))) channel payload
      message h =
    same_message error channel payload message tt h
decode_control-marshal_control (suc (suc (suc (suc (suc (suc (suc (suc zero)))))))) channel payload
      message h =
    subst (λ m. decode_control (some m) ≡ expected none channel payload) (ok-injective _ _ h)
      (unfold decode_control in unfold type_of_name in refl)
decode_control-marshal_control (suc (suc (suc (suc (suc (suc (suc (suc (suc n))))))))) channel
      payload message h =
    absurd (ground arith)
