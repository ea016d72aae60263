-- ===== src/Web/Tunnel/Order.antt =====
-- Terminal output is shown in the order in which it arrived, each frame once.
use open_console.Prelude.{
  ◌&&◌, ◌++◌, All, Bool, Bytes, List, Option, [], ap, append-nil, append_assoc, false,
  if◌then◌else◌, none, not, refl, some, sym, true, ℕ, ◌∙◌, ◌∷◌, ◌≡◌,
}
use open_console.Web.Protocol.{FrameType, Frame, data_frame, open_frame, ping}
use open_console.Web.Protocol
use open_console.Web.Crypto
use open_console.Web.Crypto.{WebCrypto, Session, open_from_host}
use open_console.Web.Tunnel.State.{
  Tunnel, Effect, Options, ReadyState, bad_decrypt, emit, open_now, shown, gone, not_yet,
  protocol_failure, sent_data,
}
use open_console.Web.Tunnel.{
  handle_as, decode_message, deliver_from, show_data, show_opened, step, deliver, enqueue,
  gone_when, is_open, message_when, on_message, opens_when, run, seal_from, seal_next, send_sealed,
  write, write_with,
}
use open_console.Web.Tunnel.Frames.{
  Event, Message, channel_number, message, raw_of, closed_by_user, delivered, sealed_with,
  socket_failed, socket_gone, socket_opened, typed,
}
use open_console.Web.Tunnel.Quiet.{
  Quiet, Allows, Quiet-fail, Quiet-handle_as, Quiet-close_tunnel, Quiet-on_close, Quiet-on_error,
  Quiet-on_open, Quiet-send, Quiet-ping,
}

-- The terminal output among the effects.
abbrev pub shown_one : Effect → List Bytes
shown_one (shown b) = b ∷ []
shown_one _ = []

unfoldable pub shown_by : List Effect → List Bytes
shown_by [] = []
shown_by (e ∷ es) = shown_one e ++ shown_by es

shown_by-append : (xs ys : List Effect) → shown_by (xs ++ ys) ≡ shown_by xs ++ shown_by ys
unfolding shown_by
shown_by-append [] ys = refl
shown_by-append (x ∷ xs) ys =
    ap (λ l. shown_one x ++ l) (shown_by-append xs ys) ∙ sym (append_assoc (shown_one x) _ _)

abbrev IsMute : Effect → Type 0
IsMute e = shown_one e ≡ []

IsMute-allows : Allows IsMute
IsMute-allows = record {
  status = λ s r. refl;
  closed = refl;
  size = λ c r. refl;
  access = λ b. refl;
}

shown_by-mute : (es : List Effect) → All IsMute es → shown_by es ≡ []
unfolding shown_by
shown_by-mute [] h = refl
shown_by-mute (e ∷ es) h = rw (h.0) (shown_by-mute es h.1)

module _ (w : WebCrypto) (o : Options w) where
  -- What one DATA frame holds for the terminal: its payload, decrypted if the link has keys, and
  -- nothing if that fails.
  abbrev pub opened_plain : Crypto.Result Bytes → List Bytes
  opened_plain (Crypto.ok plain) = plain ∷ []
  opened_plain (Crypto.err e) = []

  abbrev pub plain_data : Option (Session w) → ℕ → Bytes → List Bytes
  plain_data none channel payload = payload ∷ []
  plain_data (some s) channel payload = opened_plain (open_from_host w s channel payload)

  abbrev pub plain_as : FrameType → Frame → List Bytes
  plain_as data_frame f = plain_data o.crypto (channel_number f.channel) (raw_of f.payload)
  plain_as _ f = []

  unfoldable pub plains : List Frame → List Bytes
  plains [] = []
  plains (f ∷ fs) = plain_as f.type f ++ plains fs

  plains-append : (fs gs : List Frame) → plains (fs ++ gs) ≡ plains fs ++ plains gs
  unfolding plains
  plains-append [] gs = refl
  plains-append (f ∷ fs) gs =
      ap (λ l. plain_as f.type f ++ l) (plains-append fs gs)
      ∙ sym (append_assoc (plain_as f.type f) _ _)

  -- The frames that arrive during the events, in their order: what decodes, while the socket is open.
  abbrev pub decoded_frames : Protocol.Result Frame → List Frame
  decoded_frames (Protocol.ok f) = f ∷ []
  decoded_frames (Protocol.err e) = []

  abbrev pub arrival_when : ReadyState → Message → List Frame
  arrival_when open_now m = decoded_frames (decode_message w o m)
  arrival_when _ m = []

  abbrev pub arrival : Tunnel → Event → List Frame
  arrival t (message m) = arrival_when t.ready m
  arrival t _ = []

  unfoldable pub arrivals : Tunnel → List Event → List Frame
  arrivals t [] = []
  arrivals t (e ∷ es) = arrival t e ++ arrivals (step w o t e) es

  -- What is on the screen, followed by what the queue still holds for it.
  abbrev pub view : Tunnel → List Bytes
  view t = shown_by t.log ++ plains t.inbound

  view-Quiet : {t u : Tunnel} → Quiet IsMute t u → view u ≡ view t
  view-Quiet {t} {u} k =
      rw (k.log, k.inbound, shown_by-append t.log k.added, shown_by-mute k.added k.all, append-nil)

  view-show :
      (b : Bytes) (t : Tunnel) (fs : List Frame)
      → view (emit (shown b) (record t { inbound = fs })) ≡ shown_by t.log ++ (b ∷ plains fs)
  unfolding shown_by
  view-show b t fs = rw shown_by-append (append_assoc (shown_by t.log) (b ∷ []) (plains fs))

  view-show_data :
      (c : Option (Session w)) (channel : ℕ) (payload : Bytes) (t : Tunnel) (fs : List Frame)
      → view (show_data w o c channel payload (record t { inbound = fs }))
        ≡ shown_by t.log ++ (plain_data c channel payload ++ plains fs)
  view-show_data none channel payload t fs = view-show payload t fs
  view-show_data (some s) channel payload t fs = by_result (open_from_host w s channel payload)
    where
      by_result :
          (r : Crypto.Result Bytes)
          → view (show_opened w o r (record t { inbound = fs }))
            ≡ shown_by t.log ++ (opened_plain r ++ plains fs)
      by_result (Crypto.ok plain) = view-show plain t fs
      by_result (Crypto.err e) =
          view-Quiet (Quiet-fail IsMute-allows bad_decrypt (record t { inbound = fs }))

  view-handle_as :
      (type : FrameType) (f : Frame) (t : Tunnel) (fs : List Frame)
      → view (handle_as w o type f (record t { inbound = fs }))
        ≡ shown_by t.log ++ (plain_as type f ++ plains fs)
  view-handle_as data_frame f t fs =
      unfold handle_as in view-show_data o.crypto (channel_number f.channel) (raw_of f.payload) t fs
  view-handle_as ping f t fs =
      view-Quiet
        (Quiet-ping w o {Q = IsMute} IsMute-allows f (record t { inbound = fs }) (λ j. refl))
  view-handle_as open_frame f t fs =
      view-Quiet (Quiet-handle_as w o IsMute-allows open_frame f _ (λ e. cc e) (λ e. cc e))
  view-handle_as type f t fs =
      view-Quiet (Quiet-handle_as w o IsMute-allows type f _ (λ e. cc e) (λ e. cc e))

  view-deliver_from :
      (fs : List Frame) (t : Tunnel) → t.inbound ≡ fs → view (deliver_from w o fs t) ≡ view t
  unfolding plains
  view-deliver_from [] t h = refl
  view-deliver_from (f ∷ fs) t h = rw h (view-handle_as f.type f t fs)

  view-enqueue :
      (r : Protocol.Result Frame) (t : Tunnel)
      → view (enqueue w o r t) ≡ view t ++ plains (decoded_frames r)
  unfolding plains
  view-enqueue (Protocol.ok f) t =
      ap (λ l. shown_by t.log ++ l) (plains-append t.inbound (f ∷ []))
      ∙ sym (append_assoc (shown_by t.log) (plains t.inbound) (plains (f ∷ [])))
  view-enqueue (Protocol.err e) t =
      view-Quiet (Quiet-fail IsMute-allows (protocol_failure e) t) ∙ sym (append-nil (view t))

  view-message_when :
      (r : ReadyState) (m : Message) (t : Tunnel)
      → view (message_when w o r m t) ≡ view t ++ plains (arrival_when r m)
  unfolding plains
  view-message_when open_now m t = unfold on_message in view-enqueue (decode_message w o m) t
  view-message_when not_yet m t = sym (append-nil (view t))
  view-message_when _ m t = sym (append-nil (view t))

  view-write : (bytes : Bytes) (t : Tunnel) → view (write w o bytes t) ≡ view t
  unfolding write
  view-write bytes t = by_tests t.read_only (not (t.ws && is_open w o t.ready)) o.crypto
    where
      by_tests :
          (a b : Bool) (c : Option (Session w))
          → view (if a then t else if b then t else write_with w o c bytes t) ≡ view t
      by_tests true b c = refl
      by_tests false true c = refl
      by_tests false false none = view-Quiet (Quiet-send (sent_data _) t refl)
      by_tests false false (some s) = refl

  view-seal_next : (nonce : Bytes) (t : Tunnel) → view (seal_next w o nonce t) ≡ view t
  unfolding seal_next
  view-seal_next nonce t = by_queue o.crypto t.outbound
    where
      by_result :
          (r : Crypto.Result Bytes) (rest : List Bytes)
          → view (send_sealed w o r (record t { outbound = rest })) ≡ view t
      by_result (Crypto.ok sealed) rest =
          view-Quiet (Quiet-send (sent_data _) (record t { outbound = rest }) refl)
      by_result (Crypto.err e) rest = refl

      by_queue :
          (c : Option (Session w)) (q : List Bytes) → view (seal_from w o c nonce q t) ≡ view t
      by_queue (some s) (bytes ∷ rest) = by_result _ rest
      by_queue (some s) [] = refl
      by_queue none q = refl

  view-opens_when : (r : ReadyState) (t : Tunnel) → view (opens_when w o r t) ≡ view t
  view-opens_when not_yet t =
      view-Quiet
        (Quiet-on_open w o {Q = IsMute} IsMute-allows (record t { ready = open_now }) (λ j. refl))
  view-opens_when _ t = refl

  view-gone_when : (r : ReadyState) (t : Tunnel) → view (gone_when w o r t) ≡ view t
  view-gone_when gone t = refl
  view-gone_when _ t =
      view-Quiet (Quiet-on_close w o {Q = IsMute} IsMute-allows (record t { ready = gone }))

  view-step : (t : Tunnel) (e : Event) → view (step w o t e) ≡ view t ++ plains (arrival t e)
  unfolding step plains
  view-step t (message m) = view-message_when t.ready m t
  view-step t socket_opened = view-opens_when t.ready t ∙ sym (append-nil (view t))
  view-step t socket_failed =
      view-Quiet (Quiet-on_error w o IsMute-allows t) ∙ sym (append-nil (view t))
  view-step t socket_gone = view-gone_when t.ready t ∙ sym (append-nil (view t))
  view-step t delivered =
      unfold deliver in view-deliver_from t.inbound t refl ∙ sym (append-nil (view t))
  view-step t closed_by_user =
      view-Quiet (Quiet-close_tunnel IsMute-allows t) ∙ sym (append-nil (view t))
  view-step t (typed bytes) = view-write bytes t ∙ sym (append-nil (view t))
  view-step t (sealed_with nonce) = view-seal_next nonce t ∙ sym (append-nil (view t))

  -- Whatever happens, what has been shown, followed by what the queued frames still hold for the
  -- terminal, is what was shown and queued before, followed by the contents of the frames that
  -- arrived since, in their order of arrival: each DATA frame's payload, decrypted if the link has
  -- keys and dropped if that fails. Nothing else is ever shown, and nothing is shown twice.
  pub shown_in_order :
      (es : List Event) (t : Tunnel) → view (run w o t es) ≡ view t ++ plains (arrivals t es)
  unfolding run arrivals
  shown_in_order [] t = unfold plains in sym (append-nil (view t))
  shown_in_order (e ∷ es) t =
      shown_in_order es (step w o t e)
      ∙ ap (λ l. l ++ plains (arrivals (step w o t e) es)) (view-step t e)
      ∙ append_assoc (view t) _ _
      ∙ ap (λ l. view t ++ l) (sym (plains-append (arrival t e) _))
