-- ===== src/Web/Protocol.antt =====
-- web/src/protocol.ts: frames and their two encodings.
--
-- JSON.stringify and JSON.parse are left outside: a control message is the value that is
-- stringified, and what the parser made of the text, `none` if it threw.
pub mod Binary
pub mod Control
use open_console.Prelude.{
  ◌%◌, ◌*◌, ◌+◌, ◌++◌, ◌/◌, ◌==◌, Bool, Bytes, List, Option, Text, [], ◌^◌, codes, false,
  if◌then◌else◌, length, none, some, text_eq, ◌||◌, ℕ, ◌∷◌,
}
use open_console.Web.Json.{
  Json, Number, nat, Fields, end, field, null, bool, num, str, arr, obj, get,
}

abbrev pub protocol_version : ℕ
protocol_version = 1

abbrev pub binary_header_len : ℕ
binary_header_len = 5

abbrev pub channel_control : ℕ
channel_control = 0

-- `FrameType`, with one more case: `type in TYPE_VALUES` also finds the names that every object
-- inherits, and the cast then lets such a name through.
pub data FrameType : Type 0 where
  open_frame data_frame resize ping pong close error : FrameType
  inherited : Text → FrameType

-- `TYPE_VALUES`; an inherited name has no number.
unfoldable pub type_value : FrameType → Option ℕ
type_value open_frame = some 1
type_value data_frame = some 2
type_value resize = some 3
type_value ping = some 4
type_value pong = some 5
type_value close = some 6
type_value error = some 7
type_value (inherited name) = none

unfoldable pub type_name : FrameType → Text
type_name open_frame = codes "OPEN"
type_name data_frame = codes "DATA"
type_name resize = codes "RESIZE"
type_name ping = codes "PING"
type_name pong = codes "PONG"
type_name close = codes "CLOSE"
type_name error = codes "ERROR"
type_name (inherited name) = name

-- The properties of Object.prototype.
abbrev pub prototype_names : List Text
prototype_names =
    codes "constructor"
    ∷ codes "__defineGetter__"
    ∷ codes "__defineSetter__"
    ∷ codes "hasOwnProperty"
    ∷ codes "__lookupGetter__"
    ∷ codes "__lookupSetter__"
    ∷ codes "isPrototypeOf"
    ∷ codes "propertyIsEnumerable"
    ∷ codes "toString"
    ∷ codes "valueOf"
    ∷ codes "__proto__"
    ∷ codes "toLocaleString"
    ∷ []

unfoldable pub is_one_of : Text → List Text → Bool
is_one_of k [] = false
is_one_of k (n ∷ ns) = text_eq k n || is_one_of k ns

unfoldable pub on_prototype : Text → Bool
unfolding is_one_of
on_prototype k = is_one_of k prototype_names

-- `type in TYPE_VALUES`, with the type that the name then stands for.
unfoldable pub type_of_name : Text → Option FrameType
type_of_name k =
    if text_eq k (codes "OPEN")
    then some open_frame
    else if text_eq k (codes "DATA")
    then some data_frame
    else if text_eq k (codes "RESIZE")
    then some resize
    else if text_eq k (codes "PING")
    then some ping
    else if text_eq k (codes "PONG")
    then some pong
    else if text_eq k (codes "CLOSE")
    then some close
    else if text_eq k (codes "ERROR")
    then some error
    else if on_prototype k
    then some (inherited k)
    else none

-- Raw bytes for DATA, the decoded payload or undefined for everything else.
pub data Payload : Type 0 where
  raw : Bytes → Payload
  decoded : Option Json → Payload

pub record Frame : Type 0 where
  pub type : FrameType
  pub channel : Number
  pub payload : Payload

-- Why a ProtocolError was thrown.
pub data ProtocolError : Type 0 where
  too_short : ℕ → ProtocolError
  not_data : ℕ → ProtocolError
  malformed not_object data_in_control : ProtocolError
  unknown_type : Option Json → ProtocolError

pub data Result {ℓ} (A : Type ℓ) : Type ℓ where
  ok : A → Result A
  err : ProtocolError → Result A

-- `setUint32(i, n, false)` and `getUint32(i, false)`.
unfoldable pub be32 : ℕ → Bytes
be32 n = (n / 2 ^ 24 % 256) ∷ (n / 2 ^ 16 % 256) ∷ (n / 2 ^ 8 % 256) ∷ (n % 256) ∷ []

abbrev pub of_be32 : ℕ → ℕ → ℕ → ℕ → ℕ
of_be32 a b c d = a * 2 ^ 24 + b * 2 ^ 16 + c * 2 ^ 8 + d

unfoldable pub encode_data : Bytes → ℕ → Bytes
unfolding be32
encode_data payload channel = 2 ∷ (be32 channel ++ payload)

unfoldable pub decode_binary : Bytes → Result Frame
decode_binary (t ∷ a ∷ b ∷ c ∷ d ∷ payload) =
    if t == 2
    then ok (record { type = data_frame; channel = nat (of_be32 a b c d); payload = raw payload })
    else err (not_data t)
decode_binary buf = err (too_short (length buf))

abbrev opt_field : Text → Option Json → Fields → Fields
opt_field k none rest = rest
opt_field k (some v) rest = field k v rest

-- The envelope that is stringified. The type is one of the names other than DATA.
unfoldable pub encode_control : FrameType → Option Json → ℕ → Json
unfolding type_name
encode_control type payload channel = obj (
    field (codes "type") (str (type_name type)) (
      opt_field (codes "channel") (if channel == 0 then none else some (num (nat channel)))
        (opt_field (codes "payload") payload end)))

abbrev channel_of : Option Json → Number
channel_of (some (num n)) = n
channel_of _ = nat channel_control

abbrev control_frame : FrameType → Json → Result Frame
control_frame data_frame envelope = err data_in_control
control_frame type envelope = ok (record {
  type = type;
  channel = channel_of (get (codes "channel") envelope);
  payload = decoded (get (codes "payload") envelope);
})

abbrev typed_frame : Option FrameType → Option Json → Json → Result Frame
typed_frame none type envelope = err (unknown_type type)
typed_frame (some t) type envelope = control_frame t envelope

abbrev decode_type : Option Json → Json → Result Frame
decode_type (some (str name)) envelope = typed_frame (type_of_name name) (some (str name)) envelope
decode_type type envelope = err (unknown_type type)

-- Objects and arrays are what `typeof` calls an object.
abbrev decode_envelope : Json → Result Frame
decode_envelope (obj fs) = decode_type (get (codes "type") (obj fs)) (obj fs)
decode_envelope (arr xs) = decode_type (get (codes "type") (arr xs)) (arr xs)
decode_envelope _ = err not_object

unfoldable pub decode_control : Option Json → Result Frame
unfolding type_of_name on_prototype get
decode_control none = err malformed
decode_control (some envelope) = decode_envelope envelope
