-- ===== src/Web/Tunnel/Sealed.antt =====
-- A tunnel with keys sends terminal input only sealed, and none at all without the writing key.
use open_console.Prelude.{
  ◌&&◌, ◌++◌, All, All-append, Bool, Bytes, List, [], arith, false, if◌then◌else◌, not, refl, some,
  true, ◌∷◌, ◌≡◌,
}
use open_console.Web.Protocol.{
  FrameType, Frame, encode_data, channel_control, data_frame, open_frame, ping,
}
use open_console.Web.Protocol
use open_console.Web.Crypto
use open_console.Web.Crypto.{WebCrypto, Session, seal_to_host, can_write, read_only}
use open_console.Web.Tunnel.State.{
  Tunnel, Effect, Options, ReadyState, bad_decrypt, fresh, gone, not_yet, open_now,
  protocol_failure, sent_data, shown, socket_closed,
}
use open_console.Web.Tunnel.{
  handle_as, connect, decode_message, deliver, deliver_from, enqueue, gone_when, is_open,
  message_when, on_message, opens_when, run, seal_from, seal_next, send_sealed, show_opened, step,
  write, write_with,
}
use open_console.Web.Tunnel.Frames.{
  Event, Message, closed_by_user, delivered, message, sealed_with, socket_failed, socket_gone,
  socket_opened, typed,
}
use open_console.Web.Tunnel.Quiet.{
  Quiet, Allows, Quiet-close_tunnel, Quiet-emit, Quiet-fail, Quiet-handle_as, Quiet-on_close,
  Quiet-on_error, Quiet-on_open, Quiet-send, Quiet-ping,
}

module _ (w : WebCrypto) (s : Session w) where
  -- The message is a DATA frame of the control channel whose payload was sealed with the keys.
  pub record SealedData (d : Bytes) : Type 0 where
    pub nonce : Bytes
    pub input : Bytes
    pub sealed : Bytes
    pub sealing : seal_to_host w s channel_control nonce input ≡ Crypto.ok sealed
    pub framing : d ≡ encode_data sealed channel_control

  abbrev pub IsSealed : Effect → Type 0
  IsSealed (sent_data d) = SealedData d
  IsSealed _ = Unit

  IsSealed-allows : Allows IsSealed
  IsSealed-allows = record { status = λ s r. tt; closed = tt; size = λ c r. tt; access = λ b. tt }

  grow : {t u : Tunnel} → Quiet IsSealed t u → All IsSealed t.log → All IsSealed u.log
  grow {t} {u} k h = rw k.log (All-append IsSealed t.log k.added h k.all)

  module _ (o : Options w) (keys : o.crypto ≡ some s) where
    Sealed-show_opened :
        (r : Crypto.Result Bytes) (t : Tunnel)
        → All IsSealed t.log
        → All IsSealed (show_opened w o r t).log
    Sealed-show_opened (Crypto.ok plain) t h = grow (Quiet-emit (shown plain) t tt) h
    Sealed-show_opened (Crypto.err e) t h = grow (Quiet-fail IsSealed-allows bad_decrypt t) h

    Sealed-handle_as :
        (type : FrameType) (f : Frame) (t : Tunnel)
        → All IsSealed t.log
        → All IsSealed (handle_as w o type f t).log
    Sealed-handle_as data_frame f t h = unfold handle_as in rw keys (Sealed-show_opened _ t h)
    Sealed-handle_as ping f t h = grow (Quiet-ping w o IsSealed-allows f t (λ j. tt)) h
    Sealed-handle_as open_frame f t h =
        grow (Quiet-handle_as w o IsSealed-allows open_frame f t (λ e. cc e) (λ e. cc e)) h
    Sealed-handle_as type f t h =
        grow (Quiet-handle_as w o IsSealed-allows type f t (λ e. cc e) (λ e. cc e)) h

    Sealed-deliver_from :
        (fs : List Frame) (t : Tunnel)
        → All IsSealed t.log
        → All IsSealed (deliver_from w o fs t).log
    Sealed-deliver_from [] t h = h
    Sealed-deliver_from (f ∷ fs) t h = Sealed-handle_as f.type f (record t { inbound = fs }) h

    Sealed-message_when :
        (r : ReadyState) (m : Message) (t : Tunnel)
        → All IsSealed t.log
        → All IsSealed (message_when w o r m t).log
    Sealed-message_when open_now m t h = unfold on_message in by_result (decode_message w o m)
      where
        by_result : (r : Protocol.Result Frame) → All IsSealed (enqueue w o r t).log
        by_result (Protocol.ok f) = h
        by_result (Protocol.err e) = grow (Quiet-fail IsSealed-allows (protocol_failure e) t) h
    Sealed-message_when not_yet m t h = h
    Sealed-message_when _ m t h = h

    Sealed-write :
        (bytes : Bytes) (t : Tunnel) → All IsSealed t.log → All IsSealed (write w o bytes t).log
    unfolding write
    Sealed-write bytes t h = rw keys (by_tests t.read_only (not (t.ws && is_open w o t.ready)))
      where
        by_tests :
            (a b : Bool)
            → All IsSealed (if a then t else if b then t else write_with w o (some s) bytes t).log
        by_tests true b = h
        by_tests false true = h
        by_tests false false = h

    Sealed-seal_next :
        (nonce : Bytes) (t : Tunnel) → All IsSealed t.log → All IsSealed (seal_next w o nonce t).log
    unfolding seal_next
    Sealed-seal_next nonce t h = rw keys (by_queue t.outbound)
      where
        by_result :
            (bytes : Bytes) (rest : List Bytes) (r : Crypto.Result Bytes)
            → seal_to_host w s channel_control nonce bytes ≡ r
            → All IsSealed (send_sealed w o r (record t { outbound = rest })).log
        by_result bytes rest (Crypto.ok sealed) e =
            grow
              (Quiet-send (sent_data (encode_data sealed channel_control))
                (record t { outbound = rest })
                (record {
                  nonce = nonce;
                  input = bytes;
                  sealed = sealed;
                  sealing = e;
                  framing = refl;
                }))
              h
        by_result bytes rest (Crypto.err x) e = h

        by_queue : (q : List Bytes) → All IsSealed (seal_from w o (some s) nonce q t).log
        by_queue (bytes ∷ rest) = by_result bytes rest _ refl
        by_queue [] = h

    Sealed-opens_when :
        (r : ReadyState) (t : Tunnel) → All IsSealed t.log → All IsSealed (opens_when w o r t).log
    Sealed-opens_when not_yet t h =
        grow (Quiet-on_open w o IsSealed-allows (record t { ready = open_now }) (λ j. tt)) h
    Sealed-opens_when _ t h = h

    Sealed-gone_when :
        (r : ReadyState) (t : Tunnel) → All IsSealed t.log → All IsSealed (gone_when w o r t).log
    Sealed-gone_when gone t h = h
    Sealed-gone_when _ t h = grow (Quiet-on_close w o IsSealed-allows (record t { ready = gone })) h

    Sealed-step : (t : Tunnel) (e : Event) → All IsSealed t.log → All IsSealed (step w o t e).log
    unfolding step
    Sealed-step t (message m) h = Sealed-message_when t.ready m t h
    Sealed-step t socket_opened h = Sealed-opens_when t.ready t h
    Sealed-step t socket_failed h = grow (Quiet-on_error w o IsSealed-allows t) h
    Sealed-step t socket_gone h = Sealed-gone_when t.ready t h
    Sealed-step t delivered h = unfold deliver in Sealed-deliver_from t.inbound t h
    Sealed-step t closed_by_user h = grow (Quiet-close_tunnel IsSealed-allows t) h
    Sealed-step t (typed bytes) h = Sealed-write bytes t h
    Sealed-step t (sealed_with nonce) h = Sealed-seal_next nonce t h

    -- With keys, whatever the relay, the user and the socket do, every DATA message that is sent
    -- holds input sealed with those keys: nothing typed goes out in the clear.
    pub sends_only-IsSealed :
        (es : List Event) (t : Tunnel) → All IsSealed t.log → All IsSealed (run w o t es).log
    unfolding run
    sends_only-IsSealed [] t h = h
    sends_only-IsSealed (e ∷ es) t h = sends_only-IsSealed es (step w o t e) (Sealed-step t e h)

-- The DATA messages among the effects.
abbrev pub data_one : Effect → List Bytes
data_one (sent_data d) = d ∷ []
data_one _ = []

unfoldable pub data_sent : List Effect → List Bytes
data_sent [] = []
data_sent (e ∷ es) = data_one e ++ data_sent es

module _ (w : WebCrypto) (s : Session w) (reads_only : can_write w s ≡ false) where
  cannot_seal :
      (nonce input sealed : Bytes)
      → seal_to_host w s channel_control nonce input ≡ Crypto.ok sealed
      → ⊥
  unfolding can_write seal_to_host
  cannot_seal nonce input sealed h = ground arith

  none_sent : (es : List Effect) → All (IsSealed w s) es → data_sent es ≡ []
  unfolding data_sent
  none_sent [] h = refl
  none_sent (sent_data d ∷ es) h = absurd (cannot_seal h.0.nonce h.0.input h.0.sealed h.0.sealing)
  none_sent (socket_closed ∷ es) h = none_sent es h.1
  none_sent (_ ∷ es) h = none_sent es h.1

  -- A tunnel whose keys cannot write sends no terminal input, whatever access the relay grants.
  pub viewer_sends_nothing :
      (o : Options w) (es : List Event)
      → o.crypto ≡ some s
      → data_sent (run w o (connect w o true fresh) es).log ≡ []
  viewer_sends_nothing o es keys =
      let started : All (IsSealed w s) (connect w o true fresh).log = unfold connect in (tt, tt) in
      none_sent _ (sends_only-IsSealed w s o keys es (connect w o true fresh) started)
