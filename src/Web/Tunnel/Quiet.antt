-- ===== src/Web/Tunnel/Quiet.antt =====
-- What the operations of the tunnel may append to its log, for any predicate on effects.
use open_console.Prelude.{
  ◌&&◌, ◌++◌, All, All-append, Bool, List, Option, [], ap, append-nil, append_assoc, codes, false,
  if◌then◌else◌, none, not, refl, some, sym, true, ◌∙◌, ◌∷◌, ◌≡◌, ◌≢◌,
}
use open_console.Web.Json.{Json, Number, num, truthy}
use open_console.Web.Protocol.{
  FrameType, Frame, close, data_frame, error, inherited, open_frame, ping, pong, resize,
}
use open_console.Web.Crypto.{WebCrypto}
use open_console.Web.Tunnel.State.{
  Tunnel, Effect, ReadyState, Reason, Status, close_tunnel, close_when, emit, fail, failed, not_yet,
  open_now, resized, send, send_when, sent_control, socket_closed, Ending, connection_failed,
  Options, closed_early, connected, connection_lost, missing_key, unexpected_key, with_failure,
}
use open_console.Web.Tunnel.{
  handle_as, on_error, attach, handle_open, has_crypto, lose_connection, on_close, on_open,
  report_end,
}
use open_console.Web.Tunnel.Frames.{resize_with, close_reason, json_of, prop}

-- The step from `t` to `u` appends effects that satisfy `Q`, and leaves the queue of frames alone.
pub record Quiet (Q : Effect → Type 0) (t u : Tunnel) : Type 0 where
  pub added : List Effect
  pub log : u.log ≡ t.log ++ added
  pub all : All Q added
  pub inbound : u.inbound ≡ t.inbound

-- Everything that is neither terminal output nor sent satisfies `Q`.
pub record Allows (Q : Effect → Type 0) : Type 0 where
  pub status : (s : Status) (r : Option Reason) → Q (Effect.status s r)
  pub closed : Q socket_closed
  pub size : (c r : Number) → Q (resized c r)
  pub access : (b : Bool) → Q (Effect.access b)

module _ {Q : Effect → Type 0} where
  pub Quiet-same : (t u : Tunnel) → u.log ≡ t.log → u.inbound ≡ t.inbound → Quiet Q t u
  Quiet-same t u l i = record {
    added = [];
    log = l ∙ sym (append-nil t.log);
    all = tt;
    inbound = i;
  }

  pub Quiet-trans : {t u v : Tunnel} → Quiet Q t u → Quiet Q u v → Quiet Q t v
  Quiet-trans {t} {u} {v} a b = record {
    added = a.added ++ b.added;
    log = b.log ∙ ap (λ l. l ++ b.added) a.log ∙ append_assoc t.log a.added b.added;
    all = All-append Q a.added b.added a.all b.all;
    inbound = b.inbound ∙ a.inbound;
  }

  pub Quiet-emit : (e : Effect) (t : Tunnel) → Q e → Quiet Q t (emit e t)
  Quiet-emit e t q = record { added = e ∷ []; log = refl; all = (q, tt); inbound = refl }

  -- After a step that wrote nothing.
  pub Quiet-emitted :
      (e : Effect) (t u : Tunnel)
      → Q e
      → u.log ≡ t.log
      → u.inbound ≡ t.inbound
      → Quiet Q t (emit e u)
  Quiet-emitted e t u q l i = record {
    added = e ∷ [];
    log = ap (λ x. x ++ e ∷ []) l;
    all = (q, tt);
    inbound = i;
  }

  pub Quiet-send : (e : Effect) (t : Tunnel) → Q e → Quiet Q t (send e t)
  unfolding send
  Quiet-send e t q = send_by t.ws t.ready
    where
      when_ready : (r : ReadyState) → Quiet Q t (send_when r e t)
      when_ready open_now = Quiet-emit e t q
      when_ready _ = Quiet-same t t refl refl

      send_by : (b : Bool) (r : ReadyState) → Quiet Q t (if b then send_when r e t else t)
      send_by true r = when_ready r
      send_by false r = Quiet-same t t refl refl

module _ {Q : Effect → Type 0} where
  pub close_tunnel_quietly : (t : Tunnel) → Q socket_closed → Quiet Q t (close_tunnel t)
  unfolding close_tunnel
  close_tunnel_quietly t c = close_by t.ws t.ready
    where
      when_ready : (r : ReadyState) → Quiet Q t (close_when r (record t { ws = false }))
      when_ready not_yet = record { added = _; log = refl; all = (c, tt); inbound = refl }
      when_ready open_now = record { added = _; log = refl; all = (c, tt); inbound = refl }
      when_ready _ = Quiet-same t _ refl refl

      close_by :
          (b : Bool) (r : ReadyState)
          → Quiet Q t (if b then close_when r (record t { ws = false }) else t)
      close_by true r = when_ready r
      close_by false r = Quiet-same t t refl refl

  pub fail_quietly :
      (reason : Reason) (t : Tunnel)
      → Q socket_closed
      → Q (Effect.status failed (some reason))
      → Quiet Q t (fail reason t)
  unfolding fail
  fail_quietly reason t c f =
      Quiet-trans
        (Quiet-emitted (Effect.status failed (some reason)) t (with_failure reason t) f refl refl)
        (close_tunnel_quietly _ c)

module _ {Q : Effect → Type 0} (q : Allows Q) where
  pub Quiet-close_tunnel : (t : Tunnel) → Quiet Q t (close_tunnel t)
  Quiet-close_tunnel t = close_tunnel_quietly t q.closed

  pub Quiet-fail : (reason : Reason) (t : Tunnel) → Quiet Q t (fail reason t)
  Quiet-fail reason t = fail_quietly reason t q.closed (q.status failed (some reason))

  Quiet-resize : (c r : Option Json) (t : Tunnel) → Quiet Q t (resize_with c r t)
  Quiet-resize (some (num c)) (some (num r)) t = Quiet-emit (resized c r) t (q.size c r)
  Quiet-resize none _ t = Quiet-same t t refl refl
  Quiet-resize _ _ t = Quiet-same t t refl refl

module _ (w : WebCrypto) (o : Options w) {Q : Effect → Type 0} (q : Allows Q) where
  pub Quiet-on_open : (t : Tunnel) → ((j : Json) → Q (sent_control j)) → Quiet Q t (on_open w o t)
  unfolding on_open
  Quiet-on_open t control = Quiet-send _ t (control _)

  pub Quiet-ping :
      (f : Frame) (t : Tunnel)
      → ((j : Json) → Q (sent_control j))
      → Quiet Q t (handle_as w o ping f t)
  unfolding handle_as
  Quiet-ping f t control = Quiet-send _ t (control _)

  Quiet-attach : (ack : Option Json) (t : Tunnel) → Quiet Q t (attach w o ack t)
  Quiet-attach ack t = record {
    added = _;
    log = append_assoc t.log _ _;
    all = (q.access _, (q.status connected none, tt));
    inbound = refl;
  }

  pub Quiet-handle_open : (ack : Option Json) (t : Tunnel) → Quiet Q t (handle_open w o ack t)
  unfolding handle_open
  Quiet-handle_open ack t = by_keys (truthy (prop (codes "encrypted") ack)) (has_crypto w o)
    where
      t' : Tunnel
      t' = record t { opened = true }

      by_keys :
          (e k : Bool)
          → Quiet Q t (
              if e && not k
              then fail missing_key t'
              else if not e && k
              then fail unexpected_key t'
              else attach w o ack t')
      by_keys true false = Quiet-trans (Quiet-same t t' refl refl) (Quiet-fail q missing_key t')
      by_keys false true = Quiet-trans (Quiet-same t t' refl refl) (Quiet-fail q unexpected_key t')
      by_keys true true = Quiet-trans (Quiet-same t t' refl refl) (Quiet-attach ack t')
      by_keys false false = Quiet-trans (Quiet-same t t' refl refl) (Quiet-attach ack t')

  -- Every frame but DATA and PING is handled quietly.
  pub Quiet-handle_as :
      (type : FrameType) (f : Frame) (t : Tunnel)
      → type ≢ data_frame
      → type ≢ ping
      → Quiet Q t (handle_as w o type f t)
  unfolding handle_as
  Quiet-handle_as open_frame f t n p = Quiet-handle_open (json_of f.payload) t
  Quiet-handle_as data_frame f t n p = absurd (n refl)
  Quiet-handle_as resize f t n p = Quiet-resize q _ _ t
  Quiet-handle_as ping f t n p = absurd (p refl)
  Quiet-handle_as pong f t n p = Quiet-same t t refl refl
  Quiet-handle_as close f t n p =
      let t' = record t {
        ending = some (record { reason = close_reason (json_of f.payload); graceful = true });
      } in
      Quiet-trans (Quiet-same t t' refl refl) (Quiet-close_tunnel q t')
  Quiet-handle_as error f t n p = Quiet-fail q _ t
  Quiet-handle_as (inherited name) f t n p = Quiet-same t t refl refl

  pub Quiet-on_error : (t : Tunnel) → Quiet Q t (on_error w o t)
  unfolding on_error
  Quiet-on_error t = ended t.ending
    where
      ended :
          (e : Option Ending) → Quiet Q t (elim e [ none ↦ fail connection_failed t | some x ↦ t ])
      ended none = Quiet-fail q connection_failed t
      ended (some x) = Quiet-same t t refl refl

  pub Quiet-on_close : (t : Tunnel) → Quiet Q t (on_close w o t)
  unfolding on_close
  Quiet-on_close t = ended t.ending t.opened
    where
      ended :
          (e : Option Ending) (was_open : Bool)
          → Quiet Q t (elim e [
            | some x ↦ report_end w o x t
            | none ↦ if not was_open then fail closed_early t else lose_connection w o t
          ])
      ended none false = Quiet-fail q closed_early t
      ended none true =
          Quiet-emitted (Effect.status failed (some connection_lost)) t _ (q.status _ _) refl refl
      ended (some x) _ = Quiet-emit _ t (q.status _ _)
