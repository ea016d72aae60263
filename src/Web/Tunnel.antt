-- ===== src/Web/Tunnel.antt =====
-- web/src/tunnel.ts: the browser end of a tunnel.
--
-- The event loop is explicit: an `Event` is what the browser calls next, and `step` is the whole
-- callback. The two promise chains are queues. A link of a chain runs when the one before it has
-- finished, so each is one event of its own; decryption and sealing happen when it finishes.
-- What the tunnel does to the outside, the handlers and the socket, is appended to `log`.
pub mod State
pub mod Address
pub mod Frames
pub mod Quiet
pub mod Attach
pub mod Moves
pub mod Order
pub mod Sealed
pub mod Endings
pub mod Drained
use open_console.Prelude.{
  ◌&&◌, ◌++◌, Bool, Bytes, List, Option, [], codes, false, if◌then◌else◌, none, not, some, true,
  ◌||◌, ℕ, ◌∷◌,
}
use open_console.Web.Json.{
  Json, Number, nat, null, str, num, Fields, get, truthy, end, field, obj, real,
}
use open_console.Web.Protocol.{
  Frame, FrameType, Payload, encode_data, encode_control, decode_binary, decode_control, decoded,
  raw, Result, channel_control, close, data_frame, err, error, inherited, ok, open_frame, ping,
  pong, protocol_version, resize,
}
use open_console.Web.Protocol
use open_console.Web.Crypto
use open_console.Web.Crypto.{WebCrypto, Session, open_from_host, seal_to_host, can_write, read_only}
use open_console.Web.Tunnel.State.{
  Tunnel, Options, Reason, access, bad_decrypt, close_tunnel, connected, connecting, emit, fail,
  host_ended, invalid_link, missing_key, no_terminal, not_opened, not_yet, other_version, peer,
  refused, rejected, resized, send, sent_control, session_ended, shown, status, unexpected_key,
  Ending, ReadyState, closed, closed_early, connection_failed, connection_lost, failed, gone,
  open_now, protocol_failure, sent_data,
}
use Frames.{
  json_of, raw_of, prop, is_text, or_null, describe_error, close_reason, resize_with,
  channel_number, Message, Event, text, binary, socket_opened, socket_failed, socket_gone,
  delivered, closed_by_user, message, typed, sealed_with,
}

module _ (w : WebCrypto) (o : Options w) where
  abbrev pub has_crypto : Bool
  has_crypto = elim o.crypto [ none ↦ false | some s ↦ true ]

  -- `this.opts.crypto?.canWrite === false`
  abbrev pub cannot_write : Bool
  cannot_write = elim o.crypto [ none ↦ false | some s ↦ not (can_write w s) ]

  abbrev pub open_message : Json
  open_message = obj (
      field (codes "version") (num (nat protocol_version)) (
        field (codes "session_id") (str o.session_id) (
          field (codes "role") (str (codes "guest")) (
            field (codes "token") (str o.token)
              (field (codes "cols") (num o.cols) (field (codes "rows") (num o.rows) end))))))

  -- `connect`, up to its return; `created` says whether `new WebSocket` returned.
  unfoldable pub connect : Bool → Tunnel → Tunnel
  unfolding fail
  connect created t =
      let told = emit (status connecting none) t in
      if created then record told { ws = true; ready = not_yet } else fail not_opened told

  unfoldable pub on_open : Tunnel → Tunnel
  unfolding send
  on_open t = send (sent_control (encode_control open_frame (some open_message) channel_control)) t

  abbrev pub attach : Option Json → Tunnel → Tunnel
  attach ack t =
      let limited : Bool =
        not (is_text (codes "guest") (prop (codes "role") ack)) || cannot_write in
      emit (status connected none) (emit (access limited) (record t { read_only = limited }))

  -- `case 'OPEN'`
  unfoldable pub handle_open : Option Json → Tunnel → Tunnel
  unfolding fail
  handle_open ack t =
      let encrypted : Bool = truthy (prop (codes "encrypted") ack) in
      let t' = record t { opened = true } in
      if encrypted && not has_crypto
      then fail missing_key t'
      else if not encrypted && has_crypto
      then fail unexpected_key t'
      else attach ack t'

  abbrev pub show_opened : Crypto.Result Bytes → Tunnel → Tunnel
  show_opened (Crypto.ok plain) t = emit (shown plain) t
  show_opened (Crypto.err e) t = fail bad_decrypt t

  -- `case 'DATA'`, with the `catch` of the chain.
  abbrev pub show_data : Option (Session w) → ℕ → Bytes → Tunnel → Tunnel
  show_data none channel payload t = emit (shown payload) t
  show_data (some s) channel payload t = show_opened (open_from_host w s channel payload) t

  -- A frame of any other type falls through the `switch`.
  unfoldable pub handle_as : FrameType → Frame → Tunnel → Tunnel
  unfolding handle_open fail close_tunnel send describe_error
  handle_as open_frame f t = handle_open (json_of f.payload) t
  handle_as data_frame f t = show_data o.crypto (channel_number f.channel) (raw_of f.payload) t
  handle_as resize f t =
      resize_with (prop (codes "cols") (json_of f.payload))
        (prop (codes "rows") (json_of f.payload)) t
  handle_as ping f t = send (sent_control (encode_control pong none channel_control)) t
  handle_as pong f t = t
  handle_as close f t = close_tunnel (record t {
    ending = some (record { reason = close_reason (json_of f.payload); graceful = true });
  })
  handle_as error f t = fail (describe_error (json_of f.payload)) t
  handle_as (inherited name) f t = t

  abbrev pub handle : Frame → Tunnel → Tunnel
  handle f t = handle_as f.type f t

  unfoldable pub decode_message : Message → Protocol.Result Frame
  unfolding decode_control decode_binary
  decode_message (text parsed) = decode_control parsed
  decode_message (binary buf) = decode_binary buf

  abbrev pub enqueue : Protocol.Result Frame → Tunnel → Tunnel
  enqueue (Protocol.ok f) t = record t { inbound = t.inbound ++ f ∷ [] }
  enqueue (Protocol.err e) t = fail (protocol_failure e) t

  unfoldable pub on_message : Message → Tunnel → Tunnel
  unfolding decode_message fail
  on_message m t = enqueue (decode_message m) t

  -- One link of the chain `inbound`.
  abbrev pub deliver_from : List Frame → Tunnel → Tunnel
  deliver_from [] t = t
  deliver_from (f ∷ fs) t = handle f (record t { inbound = fs })

  unfoldable pub deliver : Tunnel → Tunnel
  unfolding handle_as
  deliver t = deliver_from t.inbound t

  unfoldable pub on_error : Tunnel → Tunnel
  unfolding fail
  on_error t = elim t.ending [ none ↦ fail connection_failed t | some e ↦ t ]

  abbrev pub report_end : Ending → Tunnel → Tunnel
  report_end e t = emit (status (if e.graceful then closed else failed) (some e.reason)) t

  abbrev pub lose_connection : Tunnel → Tunnel
  lose_connection t =
      emit (status failed (some connection_lost))
        (record t { ending = some (record { reason = connection_lost; graceful = false }) })

  unfoldable pub on_close : Tunnel → Tunnel
  unfolding fail
  on_close t = elim t.ending [
    | some e ↦ report_end e t
    | none ↦ if not t.opened then fail closed_early t else lose_connection t
  ]

  abbrev pub write_with : Option (Session w) → Bytes → Tunnel → Tunnel
  write_with none bytes t = send (sent_data (encode_data bytes channel_control)) t
  write_with (some s) bytes t = record t { outbound = t.outbound ++ bytes ∷ [] }

  abbrev pub is_open : ReadyState → Bool
  is_open open_now = true
  is_open _ = false

  unfoldable pub write : Bytes → Tunnel → Tunnel
  unfolding send
  write bytes t =
      if t.read_only
      then t
      else if not (t.ws && is_open t.ready)
      then t
      else write_with o.crypto bytes t

  abbrev pub send_sealed : Crypto.Result Bytes → Tunnel → Tunnel
  send_sealed (Crypto.ok sealed) t = send (sent_data (encode_data sealed channel_control)) t
  send_sealed (Crypto.err e) t = t

  -- One link of the chain `outbound`; only a tunnel with keys has any. A failure is swallowed.
  abbrev pub seal_from : Option (Session w) → Bytes → List Bytes → Tunnel → Tunnel
  seal_from (some s) nonce (bytes ∷ rest) t =
      send_sealed (seal_to_host w s channel_control nonce bytes) (record t { outbound = rest })
  seal_from _ nonce _ t = t

  unfoldable pub seal_next : Bytes → Tunnel → Tunnel
  unfolding send
  seal_next nonce t = seal_from o.crypto nonce t.outbound t

  abbrev pub opens_when : ReadyState → Tunnel → Tunnel
  opens_when not_yet t = on_open (record t { ready = open_now })
  opens_when _ t = t

  -- A message that comes after `close` is not dispatched.
  abbrev pub message_when : ReadyState → Message → Tunnel → Tunnel
  message_when open_now m t = on_message m t
  message_when _ m t = t

  abbrev pub gone_when : ReadyState → Tunnel → Tunnel
  gone_when gone t = t
  gone_when _ t = on_close (record t { ready = gone })

  unfoldable pub step : Tunnel → Event → Tunnel
  step t socket_opened = opens_when t.ready t
  step t socket_failed = on_error t
  step t socket_gone = gone_when t.ready t
  step t delivered = deliver t
  step t closed_by_user = close_tunnel t
  step t (message m) = message_when t.ready m t
  step t (typed bytes) = write bytes t
  step t (sealed_with nonce) = seal_next nonce t

  unfoldable pub run : Tunnel → List Event → Tunnel
  run t [] = t
  run t (e ∷ es) = run (step t e) es
