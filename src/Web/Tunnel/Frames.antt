-- ===== src/Web/Tunnel/Frames.antt =====
-- What the callbacks of web/src/tunnel.ts read of a frame, and what may happen to a tunnel.
use open_console.Prelude.{
  Bool, Bytes, Option, Text, [], codes, false, if◌then◌else◌, none, some, text_eq, ℕ,
}
use open_console.Web.Json.{Json, Number, nat, null, str, num, get, truthy, real}
use open_console.Web.Protocol.{Payload, decoded, raw}
use open_console.Web.Tunnel.State.{
  Tunnel, Reason, emit, host_ended, invalid_link, no_terminal, other_version, peer, refused,
  rejected, resized, session_ended,
}

-- `frame.payload` where a control frame is expected.
abbrev pub json_of : Payload → Option Json
json_of (decoded j) = j
json_of (raw b) = none

abbrev pub raw_of : Payload → Bytes
raw_of (raw b) = b
raw_of (decoded j) = []

-- `(frame.payload ?? {}).k`
abbrev pub prop : Text → Option Json → Option Json
prop k none = none
prop k (some j) = get k j

abbrev pub is_text : Text → Option Json → Bool
is_text t (some (str s)) = text_eq s t
is_text t _ = false

abbrev pub or_null : Option Json → Json
or_null none = null
or_null (some j) = j

unfoldable pub describe_error : Option Json → Reason
unfolding get truthy
describe_error e =
    let code : Option Json = prop (codes "code") e in
    let message : Option Json = prop (codes "message") e in
    if is_text (codes "unauthorized") code
    then invalid_link
    else if is_text (codes "session_not_found") code
    then no_terminal
    else if is_text (codes "unsupported_version") code
    then other_version
    else if is_text (codes "protocol_error") code
    then rejected (if truthy message then message else none)
    else if truthy message
    then peer (or_null message)
    else if truthy code
    then peer (or_null code)
    else refused

-- `c.reason ? … : …`
abbrev pub close_reason : Option Json → Reason
close_reason payload =
    let reason : Option Json = prop (codes "reason") payload in
    if truthy reason then session_ended (or_null reason) else host_ended

-- `typeof size?.cols === 'number' && typeof size?.rows === 'number'`
abbrev pub resize_with : Option Json → Option Json → Tunnel → Tunnel
resize_with (some (num cols)) (some (num rows)) t = emit (resized cols rows) t
resize_with _ _ t = t

abbrev pub channel_number : Number → ℕ
channel_number (nat n) = n
channel_number (real r) = 0

-- What arrives: the text of a control message, as JSON.parse left it, or a binary message.
pub data Message : Type 0 where
  text : Option Json → Message
  binary : Bytes → Message

-- What the browser, the user and the chains may do next. The socket opens once, if at all, and
-- closes once.
pub data Event : Type 0 where
  socket_opened socket_failed socket_gone delivered closed_by_user : Event
  message : Message → Event
  typed : Bytes → Event
  sealed_with : Bytes → Event
