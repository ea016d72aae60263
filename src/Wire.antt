-- ===== src/Wire.antt =====
-- internal/protocol: the frames of the Go side, wire.go and protocol.go.
--
-- A type is its number and a channel its uint32. The payload of a control frame is the JSON value
-- that its bytes hold, `none` if there are none; json.Marshal prints what is built here.
pub mod Agreement
use open_console.Prelude.{
  ◌&&◌, ◌++◌, ◌-◌, ◌==◌, Bool, Bytes, Option, Text, [], ◌^◌, codes, if◌then◌else◌, leb, length, ltb,
  none, not, some, ℕ, ◌∷◌,
}
use open_console.Web.Json.{Json, Fields, nat, num, str, obj, field, end}
use open_console.Web.Protocol.{be32, of_be32}

abbrev pub type_open : ℕ
type_open = 1

abbrev pub type_data : ℕ
type_data = 2

abbrev pub type_window : ℕ
type_window = 8

abbrev pub header_len : ℕ
header_len = 5

abbrev pub max_payload_len : ℕ
max_payload_len = 2 ^ 20

pub record DataFrame : Type 0 where
  pub type : ℕ
  pub channel : ℕ
  pub payload : Bytes

-- The errors, by what is wrong with the frame; all wrap ErrInvalidFrame.
pub data Invalid : Type 0 where
  not_binary too_large not_long_enough : Invalid
  wants_binary : Invalid
  unknown : ℕ → Invalid

pub data Result {ℓ} (A : Type ℓ) : Type ℓ where
  ok : A → Result A
  err : Invalid → Result A

unfoldable pub valid : ℕ → Bool
valid t = leb type_open t && leb t type_window

-- `typeNames`
unfoldable pub name_of : ℕ → Text
name_of t =
    if t == 1
    then codes "OPEN"
    else if t == 2
    then codes "DATA"
    else if t == 3
    then codes "RESIZE"
    else if t == 4
    then codes "PING"
    else if t == 5
    then codes "PONG"
    else if t == 6
    then codes "CLOSE"
    else if t == 7
    then codes "ERROR"
    else if t == 8
    then codes "WINDOW"
    else []

unfoldable pub marshal_binary : DataFrame → Result Bytes
unfolding be32
marshal_binary f =
    if not (f.type == type_data)
    then err not_binary
    else if ltb max_payload_len (length f.payload)
    then err too_large
    else ok (f.type ∷ (be32 f.channel ++ f.payload))

abbrev pub split_header : Bytes → Result DataFrame
split_header (t ∷ a ∷ b ∷ c ∷ d ∷ payload) =
    if not (t == type_data)
    then err not_binary
    else ok (record { type = t; channel = of_be32 a b c d; payload = payload })
split_header _ = err not_long_enough

unfoldable pub unmarshal_binary : Bytes → Result DataFrame
unmarshal_binary b =
    if ltb (length b) header_len
    then err not_long_enough
    else if ltb max_payload_len (length b - header_len)
    then err too_large
    else split_header b

-- `omitempty`
abbrev pub unless_empty : Text → Option Json → Fields → Fields
unless_empty k none rest = rest
unless_empty k (some v) rest = field k v rest

unfoldable pub marshal_control : ℕ → ℕ → Option Json → Result Json
unfolding valid name_of
marshal_control type channel payload =
    if type == type_data
    then err wants_binary
    else if not (valid type)
    then err (unknown type)
    else ok (
        obj (
          field (codes "type") (str (name_of type)) (
            unless_empty (codes "channel") (if channel == 0 then none else some (num (nat channel)))
              (unless_empty (codes "payload") payload end))))
