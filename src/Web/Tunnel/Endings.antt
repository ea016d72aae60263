-- ===== src/Web/Tunnel/Endings.antt =====
-- After the end of a session nothing more is sent.
use open_console.Prelude.{
  ◌&&◌, ◌++◌, All, Bool, Bytes, List, Option, [], ap, append-nil, append_assoc, false,
  if◌then◌else◌, none, not, refl, some, sym, true, ℕ, ◌∙◌, ◌∷◌, ◌≡◌,
}
use open_console.Web.Protocol.{
  FrameType, Frame, data_frame, open_frame, ping, channel_control, encode_control,
}
use open_console.Web.Protocol
use open_console.Web.Crypto
use open_console.Web.Crypto.{WebCrypto, Session, open_from_host}
use open_console.Web.Tunnel.State.{
  Tunnel, Effect, Ending, Options, ReadyState, bad_decrypt, connecting, emit, fresh, gone,
  not_opened, not_yet, open_now, protocol_failure, send, send_when, sent_control, sent_data, shown,
  status,
}
use open_console.Web.Tunnel.{
  handle_as, connect, decode_message, deliver, deliver_from, enqueue, gone_when, is_open,
  message_when, on_message, on_open, opens_when, run, seal_from, seal_next, send_sealed, show_data,
  show_opened, step, write, write_with, open_message,
}
use open_console.Web.Tunnel.Frames.{
  Event, Message, channel_number, closed_by_user, delivered, message, raw_of, sealed_with,
  socket_failed, socket_gone, socket_opened, typed,
}
use open_console.Web.Tunnel.Quiet.{
  Quiet, Allows, Quiet-close_tunnel, Quiet-emit, Quiet-fail, Quiet-handle_as, Quiet-on_close,
  Quiet-on_error,
}
use open_console.Web.Tunnel.Moves.{Moves, step-Moves, is_gone, lets_go, opens, stays, ws-fail}

-- The tunnel has given the socket up, or the socket is closed.
pub data Detached (t : Tunnel) : Type 0 where
  let_go : t.ws ≡ false → Detached t
  no_socket : t.ready ≡ gone → Detached t

-- Once a session has ended, its tunnel is detached.
abbrev pub Rests : Tunnel → Type 0
Rests t = (e : Ending) → t.ending ≡ some e → Detached t

Moves-Detached : {t u : Tunnel} → Moves t u → Detached t → Detached u
Moves-Detached (stays a b c) (let_go x) = let_go (a ∙ x)
Moves-Detached (stays a b c) (no_socket x) = no_socket (b ∙ x)
Moves-Detached (lets_go x) d = let_go x
Moves-Detached (is_gone x) d = no_socket x
Moves-Detached (opens r a c) (let_go x) = let_go (a ∙ x)
Moves-Detached (opens r a c) (no_socket x) = cc

Moves-Rests : {t u : Tunnel} → Moves t u → Rests t → Rests u
Moves-Rests (stays a b c) h e k = Moves-Detached (stays a b c) (h e (sym c ∙ k))
Moves-Rests (lets_go x) h e k = let_go x
Moves-Rests (is_gone x) h e k = no_socket x
Moves-Rests (opens r a c) h e k = Moves-Detached (opens r a c) (h e (sym c ∙ k))

-- What was sent, of both kinds.
abbrev pub sent_one : Effect → List Effect
sent_one (sent_control j) = sent_control j ∷ []
sent_one (sent_data d) = sent_data d ∷ []
sent_one _ = []

unfoldable pub sent_by : List Effect → List Effect
sent_by [] = []
sent_by (e ∷ es) = sent_one e ++ sent_by es

sent_by-append : (xs ys : List Effect) → sent_by (xs ++ ys) ≡ sent_by xs ++ sent_by ys
unfolding sent_by
sent_by-append [] ys = refl
sent_by-append (x ∷ xs) ys =
    ap (λ l. sent_one x ++ l) (sent_by-append xs ys) ∙ sym (append_assoc (sent_one x) _ _)

abbrev IsUnsent : Effect → Type 0
IsUnsent e = sent_one e ≡ []

IsUnsent-allows : Allows IsUnsent
IsUnsent-allows = record {
  status = λ s r. refl;
  closed = refl;
  size = λ c r. refl;
  access = λ b. refl;
}

sent_by-unsent : (es : List Effect) → All IsUnsent es → sent_by es ≡ []
unfolding sent_by
sent_by-unsent [] h = refl
sent_by-unsent (e ∷ es) h = rw (h.0) (sent_by-unsent es h.1)

sent-Quiet : {t u : Tunnel} → Quiet IsUnsent t u → sent_by u.log ≡ sent_by t.log
sent-Quiet {t} {u} k =
    rw (k.log, sent_by-append t.log k.added, sent_by-unsent k.added k.all, append-nil)

-- A detached tunnel's `send` does nothing.
send-Detached : (e : Effect) (t : Tunnel) → Detached t → send e t ≡ t
unfolding send
send-Detached e t (let_go x) = rw x
send-Detached e t (no_socket x) = by_test t.ws t.ready x
  where
    by_test : (b : Bool) (r : ReadyState) → r ≡ gone → (if b then send_when r e t else t) ≡ t
    by_test true open_now h = cc
    by_test true not_yet h = refl
    by_test true _ h = refl
    by_test false r h = refl

sent-send : (e : Effect) (t : Tunnel) → Detached t → sent_by (send e t).log ≡ sent_by t.log
sent-send e t d = ap (λ u. sent_by u.log) (send-Detached e t d)

module _ (w : WebCrypto) (o : Options w) where
  sent-show_data :
      (c : Option (Session w)) (channel : ℕ) (payload : Bytes) (t : Tunnel)
      → sent_by (show_data w o c channel payload t).log ≡ sent_by t.log
  sent-show_data none channel payload t = sent-Quiet (Quiet-emit (shown payload) t refl)
  sent-show_data (some s) channel payload t = by_result (open_from_host w s channel payload)
    where
      by_result : (r : Crypto.Result Bytes) → sent_by (show_opened w o r t).log ≡ sent_by t.log
      by_result (Crypto.ok plain) = sent-Quiet (Quiet-emit (shown plain) t refl)
      by_result (Crypto.err e) = sent-Quiet (Quiet-fail IsUnsent-allows bad_decrypt t)

  sent-handle_as :
      (type : FrameType) (f : Frame) (t : Tunnel)
      → Detached t
      → sent_by (handle_as w o type f t).log ≡ sent_by t.log
  sent-handle_as data_frame f t d =
      unfold handle_as in sent-show_data o.crypto (channel_number f.channel) (raw_of f.payload) t
  sent-handle_as ping f t d = unfold handle_as in sent-send _ t d
  sent-handle_as open_frame f t d =
      sent-Quiet (Quiet-handle_as w o IsUnsent-allows open_frame f t (λ e. cc e) (λ e. cc e))
  sent-handle_as type f t d =
      sent-Quiet (Quiet-handle_as w o IsUnsent-allows type f t (λ e. cc e) (λ e. cc e))

  -- Detachment does not look at the queues.
  keeps : (t u : Tunnel) → u.ws ≡ t.ws → u.ready ≡ t.ready → Detached t → Detached u
  keeps t u a b (let_go x) = let_go (a ∙ x)
  keeps t u a b (no_socket x) = no_socket (b ∙ x)

  sent-deliver_from :
      (fs : List Frame) (t : Tunnel)
      → Detached t
      → sent_by (deliver_from w o fs t).log ≡ sent_by t.log
  sent-deliver_from [] t d = refl
  sent-deliver_from (f ∷ fs) t d =
      sent-handle_as f.type f (record t { inbound = fs }) (keeps t _ refl refl d)

  sent-message_when :
      (r : ReadyState) (m : Message) (t : Tunnel)
      → sent_by (message_when w o r m t).log ≡ sent_by t.log
  sent-message_when open_now m t = unfold on_message in by_result (decode_message w o m)
    where
      by_result : (r : Protocol.Result Frame) → sent_by (enqueue w o r t).log ≡ sent_by t.log
      by_result (Protocol.ok f) = refl
      by_result (Protocol.err e) = sent-Quiet (Quiet-fail IsUnsent-allows (protocol_failure e) t)
  sent-message_when not_yet m t = refl
  sent-message_when _ m t = refl

  sent-write :
      (bytes : Bytes) (t : Tunnel) → Detached t → sent_by (write w o bytes t).log ≡ sent_by t.log
  unfolding write
  sent-write bytes t d = by_tests t.read_only (not (t.ws && is_open w o t.ready)) o.crypto
    where
      by_tests :
          (a b : Bool) (c : Option (Session w))
          → sent_by (if a then t else if b then t else write_with w o c bytes t).log ≡ sent_by t.log
      by_tests true b c = refl
      by_tests false true c = refl
      by_tests false false none = sent-send _ t d
      by_tests false false (some s) = refl

  sent-seal_next :
      (nonce : Bytes) (t : Tunnel)
      → Detached t
      → sent_by (seal_next w o nonce t).log ≡ sent_by t.log
  unfolding seal_next
  sent-seal_next nonce t d = by_queue o.crypto t.outbound
    where
      by_result :
          (r : Crypto.Result Bytes) (rest : List Bytes)
          → sent_by (send_sealed w o r (record t { outbound = rest })).log ≡ sent_by t.log
      by_result (Crypto.ok sealed) rest = sent-send _ _ (keeps t _ refl refl d)
      by_result (Crypto.err e) rest = refl

      by_queue :
          (c : Option (Session w)) (q : List Bytes)
          → sent_by (seal_from w o c nonce q t).log ≡ sent_by t.log
      by_queue (some s) (bytes ∷ rest) = by_result _ rest
      by_queue (some s) [] = refl
      by_queue none q = refl

  sent-opens_when :
      (r : ReadyState) (t : Tunnel)
      → t.ready ≡ r
      → Detached t
      → sent_by (opens_when w o r t).log ≡ sent_by t.log
  sent-opens_when not_yet t h (let_go x) =
      unfold on_open in
      sent-send (sent_control (encode_control open_frame (some (open_message w o)) channel_control))
        (record t { ready = open_now }) (let_go x)
  sent-opens_when not_yet t h (no_socket x) = cc
  sent-opens_when open_now t h d = refl
  sent-opens_when _ t h d = refl

  sent-gone_when : (r : ReadyState) (t : Tunnel) → sent_by (gone_when w o r t).log ≡ sent_by t.log
  sent-gone_when gone t = refl
  sent-gone_when _ t =
      sent-Quiet (Quiet-on_close w o {Q = IsUnsent} IsUnsent-allows (record t { ready = gone }))

  sent-step : (t : Tunnel) (e : Event) → Detached t → sent_by (step w o t e).log ≡ sent_by t.log
  unfolding step
  sent-step t (message m) d = sent-message_when t.ready m t
  sent-step t socket_opened d = sent-opens_when t.ready t refl d
  sent-step t socket_failed d = sent-Quiet (Quiet-on_error w o IsUnsent-allows t)
  sent-step t socket_gone d = sent-gone_when t.ready t
  sent-step t delivered d = unfold deliver in sent-deliver_from t.inbound t d
  sent-step t closed_by_user d = sent-Quiet (Quiet-close_tunnel IsUnsent-allows t)
  sent-step t (typed bytes) d = sent-write bytes t d
  sent-step t (sealed_with nonce) d = sent-seal_next nonce t d

  sent-run :
      (es : List Event) (t : Tunnel) → Detached t → sent_by (run w o t es).log ≡ sent_by t.log
  unfolding run
  sent-run [] t d = refl
  sent-run (e ∷ es) t d =
      sent-run es (step w o t e) (Moves-Detached (step-Moves w o t e) d) ∙ sent-step t e d

  run-Rests : (es : List Event) (t : Tunnel) → Rests t → Rests (run w o t es)
  unfolding run
  run-Rests [] t h = h
  run-Rests (e ∷ es) t h = run-Rests es (step w o t e) (Moves-Rests (step-Moves w o t e) h)

  connect-Rests : (created : Bool) → Rests (connect w o created fresh)
  unfolding connect
  connect-Rests true e h = cc
  connect-Rests false e h = let_go (ws-fail not_opened (emit (status connecting none) fresh))

  -- A tunnel that has ended, by a failure, by CLOSE or by a lost connection, sends nothing any
  -- more, whatever happens next.
  pub ended_sends_nothing :
      (created : Bool) (before after : List Event) (e : Ending)
      → (run w o (connect w o created fresh) before).ending ≡ some e
      → sent_by (run w o (run w o (connect w o created fresh) before) after).log
        ≡ sent_by (run w o (connect w o created fresh) before).log
  ended_sends_nothing created before after e h =
      sent-run after _ (run-Rests before _ (connect-Rests created) e h)
