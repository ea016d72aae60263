-- ===== src/Web/Tunnel/State.antt =====
-- The tunnel's fields, what it reports, and `send`, `close` and `fail`, which every handler uses.
use open_console.Prelude.{
  ◌++◌, Bool, Bytes, List, Option, Text, [], false, if◌then◌else◌, none, some, ◌∷◌,
}
use open_console.Web.Json.{Json, Number}
use open_console.Web.Protocol.{Frame, ProtocolError}
use open_console.Web.Crypto.{WebCrypto, Session}

pub data Status : Type 0 where
  connecting connected closed failed : Status

-- The texts that a user may read. `peer` texts are made from what the relay sent.
pub data Reason : Type 0 where
  not_opened bad_decrypt connection_failed closed_early connection_lost : Reason
  missing_key unexpected_key : Reason
  invalid_link no_terminal other_version refused host_ended : Reason
  protocol_failure : ProtocolError → Reason
  session_ended : Json → Reason
  rejected : Option Json → Reason
  peer : Json → Reason

pub record Ending : Type 0 where
  pub reason : Reason
  pub graceful : Bool

-- What reaches the handlers of the page and the socket, in order.
pub data Effect : Type 0 where
  status : Status → Option Reason → Effect
  shown : Bytes → Effect
  resized : Number → Number → Effect
  access : Bool → Effect
  sent_control : Json → Effect
  sent_data : Bytes → Effect
  socket_closed : Effect

-- `WebSocket.readyState`; the last two are kept apart from what the tunnel does.
pub data ReadyState : Type 0 where
  not_yet open_now closing gone : ReadyState

-- `TunnelOptions`, less the handlers.
pub record Options (w : WebCrypto) : Type 0 where
  pub session_id : Text
  pub token : Text
  pub cols : Number
  pub rows : Number
  pub crypto : Option (Session w)

-- `ws` says whether the field `this.ws` holds the socket, and `ready` is the socket's own state.
pub record Tunnel : Type 0 where
  pub ws : Bool
  pub ready : ReadyState
  pub opened : Bool
  pub read_only : Bool
  pub ending : Option Ending
  pub inbound : List Frame
  pub outbound : List Bytes
  pub log : List Effect

abbrev pub fresh : Tunnel
fresh = record {
  ws = false;
  ready = not_yet;
  opened = false;
  read_only = false;
  ending = none;
  inbound = [];
  outbound = [];
  log = [];
}

abbrev pub emit : Effect → Tunnel → Tunnel
emit e t = record t { log = t.log ++ e ∷ [] }

-- `ws.send`: a socket that is closing or closed discards what it is given.
abbrev pub send_when : ReadyState → Effect → Tunnel → Tunnel
send_when open_now e t = emit e t
send_when _ e t = t

unfoldable pub send : Effect → Tunnel → Tunnel
send e t = if t.ws then send_when t.ready e t else t

-- `ws.readyState <= WebSocket.OPEN`
abbrev pub close_when : ReadyState → Tunnel → Tunnel
close_when not_yet t = emit socket_closed (record t { ready = closing })
close_when open_now t = emit socket_closed (record t { ready = closing })
close_when _ t = t

unfoldable pub close_tunnel : Tunnel → Tunnel
close_tunnel t = if t.ws then close_when t.ready (record t { ws = false }) else t

abbrev pub or_ending : Option Ending → Ending → Ending
or_ending none e = e
or_ending (some first) e = first

-- The first failure is the one that is kept; each is reported.
abbrev pub with_failure : Reason → Tunnel → Tunnel
with_failure reason t = record t {
  ending = some (or_ending t.ending (record { reason = reason; graceful = false }));
}

unfoldable pub fail : Reason → Tunnel → Tunnel
unfolding close_tunnel
fail reason t = close_tunnel (emit (status failed (some reason)) (with_failure reason t))
