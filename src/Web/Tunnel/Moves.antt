-- ===== src/Web/Tunnel/Moves.antt =====
-- How one step of the tunnel may change the socket and the ending.
use open_console.Prelude.{
  ◌&&◌, Bool, Bytes, List, Option, [], codes, false, if◌then◌else◌, none, not, refl, some, sym,
  true, ℕ, ◌∙◌, ◌∷◌, ◌≡◌,
}
use open_console.Web.Json.{Json, num, truthy}
use open_console.Web.Protocol.{
  FrameType, Frame, close, data_frame, error, inherited, open_frame, ping, pong, resize,
}
use open_console.Web.Protocol
use open_console.Web.Crypto
use open_console.Web.Crypto.{WebCrypto, Session, open_from_host}
use open_console.Web.Tunnel.State.{
  Tunnel, Effect, Ending, Options, ReadyState, Reason, bad_decrypt, close_tunnel, close_when,
  closed_early, connection_failed, fail, gone, missing_key, not_yet, open_now, protocol_failure,
  send, send_when, unexpected_key, emit, failed, status, with_failure, or_ending,
}
use open_console.Web.Tunnel.{
  handle_as, attach, decode_message, deliver, deliver_from, enqueue, gone_when, handle_open,
  has_crypto, is_open, lose_connection, message_when, on_close, on_error, on_message, on_open,
  opens_when, report_end, seal_from, seal_next, send_sealed, show_data, show_opened, step, write,
  write_with,
}
use open_console.Web.Tunnel.Frames.{
  Event, Message, channel_number, closed_by_user, delivered, json_of, message, prop, raw_of,
  resize_with, sealed_with, socket_failed, socket_gone, socket_opened, typed, close_reason,
}

pub data Moves (t u : Tunnel) : Type 0 where
  stays : u.ws ≡ t.ws → u.ready ≡ t.ready → u.ending ≡ t.ending → Moves t u
  lets_go : u.ws ≡ false → Moves t u
  is_gone : u.ready ≡ gone → Moves t u
  opens : t.ready ≡ not_yet → u.ws ≡ t.ws → u.ending ≡ t.ending → Moves t u

pub Moves-send : (e : Effect) (t : Tunnel) → Moves t (send e t)
unfolding send
Moves-send e t = by_tests t.ws t.ready
  where
    when_ready : (r : ReadyState) → Moves t (send_when r e t)
    when_ready open_now = stays refl refl refl
    when_ready _ = stays refl refl refl

    by_tests : (b : Bool) (r : ReadyState) → Moves t (if b then send_when r e t else t)
    by_tests true r = when_ready r
    by_tests false r = stays refl refl refl

-- After `close` the tunnel no longer holds the socket.
pub ws-close_tunnel : (t : Tunnel) → (close_tunnel t).ws ≡ false
unfolding close_tunnel
ws-close_tunnel t = by_test t.ws refl
  where
    when_ready : (r : ReadyState) → (close_when r (record t { ws = false })).ws ≡ false
    when_ready not_yet = refl
    when_ready open_now = refl
    when_ready _ = refl

    by_test :
        (b : Bool)
        → t.ws ≡ b
        → (if b then close_when t.ready (record t { ws = false }) else t).ws ≡ false
    by_test true e = when_ready t.ready
    by_test false e = e

pub ending-close_tunnel : (t : Tunnel) → (close_tunnel t).ending ≡ t.ending
unfolding close_tunnel
ending-close_tunnel t = by_test t.ws t.ready
  where
    when_ready : (r : ReadyState) → (close_when r (record t { ws = false })).ending ≡ t.ending
    when_ready not_yet = refl
    when_ready open_now = refl
    when_ready _ = refl

    by_test :
        (b : Bool) (r : ReadyState)
        → (if b then close_when r (record t { ws = false }) else t).ending ≡ t.ending
    by_test true r = when_ready r
    by_test false r = refl

pub ending-fail :
    (reason : Reason) (t : Tunnel)
    → (fail reason t).ending
      ≡ some (or_ending t.ending (record { reason = reason; graceful = false }))
unfolding fail
ending-fail reason t =
    ending-close_tunnel (emit (status failed (some reason)) (with_failure reason t))

pub ws-fail : (reason : Reason) (t : Tunnel) → (fail reason t).ws ≡ false
unfolding fail
ws-fail reason t = ws-close_tunnel (emit (status failed (some reason)) (with_failure reason t))

Moves-resize : (c r : Option Json) (t : Tunnel) → Moves t (resize_with c r t)
Moves-resize (some (num c)) (some (num r)) t = stays refl refl refl
Moves-resize none _ t = stays refl refl refl
Moves-resize _ _ t = stays refl refl refl

module _ (w : WebCrypto) (o : Options w) where
  Moves-handle_open : (ack : Option Json) (t : Tunnel) → Moves t (handle_open w o ack t)
  unfolding handle_open
  Moves-handle_open ack t = by_keys (truthy (prop (codes "encrypted") ack)) (has_crypto w o)
    where
      t' : Tunnel
      t' = record t { opened = true }

      by_keys :
          (e k : Bool)
          → Moves t (
              if e && not k
              then fail missing_key t'
              else if not e && k
              then fail unexpected_key t'
              else attach w o ack t')
      by_keys true false = lets_go (ws-fail missing_key t')
      by_keys false true = lets_go (ws-fail unexpected_key t')
      by_keys true true = stays refl refl refl
      by_keys false false = stays refl refl refl

  Moves-show_data :
      (c : Option (Session w)) (channel : ℕ) (payload : Bytes) (t : Tunnel)
      → Moves t (show_data w o c channel payload t)
  Moves-show_data none channel payload t = stays refl refl refl
  Moves-show_data (some s) channel payload t = by_result (open_from_host w s channel payload)
    where
      by_result : (r : Crypto.Result Bytes) → Moves t (show_opened w o r t)
      by_result (Crypto.ok plain) = stays refl refl refl
      by_result (Crypto.err e) = lets_go (ws-fail bad_decrypt t)

  abbrev ending_at : Frame → Tunnel → Tunnel
  ending_at f t = record t {
    ending = some (record { reason = close_reason (json_of f.payload); graceful = true });
  }

  Moves-handle_as : (type : FrameType) (f : Frame) (t : Tunnel) → Moves t (handle_as w o type f t)
  unfolding handle_as
  Moves-handle_as open_frame f t = Moves-handle_open (json_of f.payload) t
  Moves-handle_as data_frame f t =
      Moves-show_data o.crypto (channel_number f.channel) (raw_of f.payload) t
  Moves-handle_as resize f t = Moves-resize _ _ t
  Moves-handle_as ping f t = Moves-send _ t
  Moves-handle_as pong f t = stays refl refl refl
  Moves-handle_as close f t = lets_go (ws-close_tunnel (ending_at f t))
  Moves-handle_as error f t = lets_go (ws-fail _ t)
  Moves-handle_as (inherited name) f t = stays refl refl refl

  -- A change that starts from a tunnel with the same socket and ending.
  Moves-from :
      (t t' u : Tunnel)
      → t'.ws ≡ t.ws
      → t'.ready ≡ t.ready
      → t'.ending ≡ t.ending
      → Moves t' u
      → Moves t u
  Moves-from t t' u a b c (stays x y z) = stays (x ∙ a) (y ∙ b) (z ∙ c)
  Moves-from t t' u a b c (lets_go x) = lets_go x
  Moves-from t t' u a b c (is_gone x) = is_gone x
  Moves-from t t' u a b c (opens x y z) = opens (sym b ∙ x) (y ∙ a) (z ∙ c)

  Moves-deliver_from : (fs : List Frame) (t : Tunnel) → Moves t (deliver_from w o fs t)
  Moves-deliver_from [] t = stays refl refl refl
  Moves-deliver_from (f ∷ fs) t =
      Moves-from t (record t { inbound = fs }) _ refl refl refl (Moves-handle_as f.type f _)

  Moves-message_when :
      (r : ReadyState) (m : Message) (t : Tunnel) → Moves t (message_when w o r m t)
  Moves-message_when open_now m t = unfold on_message in by_result (decode_message w o m)
    where
      by_result : (r : Protocol.Result Frame) → Moves t (enqueue w o r t)
      by_result (Protocol.ok f) = stays refl refl refl
      by_result (Protocol.err e) = lets_go (ws-fail (protocol_failure e) t)
  Moves-message_when not_yet m t = stays refl refl refl
  Moves-message_when _ m t = stays refl refl refl

  Moves-on_error : (t : Tunnel) → Moves t (on_error w o t)
  unfolding on_error
  Moves-on_error t = ended t.ending
    where
      ended :
          (e : Option Ending) → Moves t (elim e [ none ↦ fail connection_failed t | some x ↦ t ])
      ended none = lets_go (ws-fail connection_failed t)
      ended (some x) = stays refl refl refl

  Moves-gone_when : (r : ReadyState) (t : Tunnel) → Moves t (gone_when w o r t)
  Moves-gone_when gone t = stays refl refl refl
  Moves-gone_when _ t = unfold on_close in ended t.ending t.opened
    where
      t' : Tunnel
      t' = record t { ready = gone }

      ended :
          (e : Option Ending) (was_open : Bool)
          → Moves t (elim e [
            | some x ↦ report_end w o x t'
            | none ↦ if not was_open then fail closed_early t' else lose_connection w o t'
          ])
      ended none false = lets_go (ws-fail closed_early t')
      ended none true = is_gone refl
      ended (some x) _ = is_gone refl

  Moves-opens_when : (r : ReadyState) (t : Tunnel) → t.ready ≡ r → Moves t (opens_when w o r t)
  Moves-opens_when not_yet t h = by_send (unfold on_open in Moves-send _ t')
    where
      t' : Tunnel
      t' = record t { ready = open_now }

      by_send : {u : Tunnel} → Moves t' u → Moves t u
      by_send (stays x y z) = opens h x z
      by_send (lets_go x) = lets_go x
      by_send (is_gone x) = is_gone x
      by_send (opens x y z) = opens h y z
  Moves-opens_when _ t h = stays refl refl refl

  Moves-write : (bytes : Bytes) (t : Tunnel) → Moves t (write w o bytes t)
  unfolding write
  Moves-write bytes t = by_tests t.read_only (not (t.ws && is_open w o t.ready)) o.crypto
    where
      by_tests :
          (a b : Bool) (c : Option (Session w))
          → Moves t (if a then t else if b then t else write_with w o c bytes t)
      by_tests true b c = stays refl refl refl
      by_tests false true c = stays refl refl refl
      by_tests false false none = Moves-send _ t
      by_tests false false (some s) = stays refl refl refl

  Moves-seal_next : (nonce : Bytes) (t : Tunnel) → Moves t (seal_next w o nonce t)
  unfolding seal_next
  Moves-seal_next nonce t = by_queue o.crypto t.outbound
    where
      by_result :
          (r : Crypto.Result Bytes) (rest : List Bytes)
          → Moves t (send_sealed w o r (record t { outbound = rest }))
      by_result (Crypto.ok sealed) rest =
          Moves-from t (record t { outbound = rest }) _ refl refl refl (Moves-send _ _)
      by_result (Crypto.err e) rest = stays refl refl refl

      by_queue : (c : Option (Session w)) (q : List Bytes) → Moves t (seal_from w o c nonce q t)
      by_queue (some s) (bytes ∷ rest) = by_result _ rest
      by_queue (some s) [] = stays refl refl refl
      by_queue none q = stays refl refl refl

  pub step-Moves : (t : Tunnel) (e : Event) → Moves t (step w o t e)
  unfolding step
  step-Moves t (message m) = Moves-message_when t.ready m t
  step-Moves t socket_opened = Moves-opens_when t.ready t refl
  step-Moves t socket_failed = Moves-on_error t
  step-Moves t socket_gone = Moves-gone_when t.ready t
  step-Moves t delivered = unfold deliver in Moves-deliver_from t.inbound t
  step-Moves t closed_by_user = lets_go (ws-close_tunnel t)
  step-Moves t (typed bytes) = Moves-write bytes t
  step-Moves t (sealed_with nonce) = Moves-seal_next nonce t
