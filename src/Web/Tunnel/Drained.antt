-- ===== src/Web/Tunnel/Drained.antt =====
-- The chain of incoming frames comes to its end, and by then everything is shown.
use open_console.Prelude.{
  ◌++◌, Bytes, List, Option, [], ap, append-nil, none, refl, some, sym, ℕ, ◌∙◌, ◌∷◌, ◌≡◌,
}
use open_console.Web.Protocol.{FrameType, Frame, data_frame, ping}
use open_console.Web.Crypto
use open_console.Web.Crypto.{WebCrypto, Session, open_from_host}
use open_console.Web.Tunnel.State.{Tunnel, Effect, Options, bad_decrypt}
use open_console.Web.Tunnel.{handle_as, deliver_from, show_data, show_opened, step, deliver, run}
use open_console.Web.Tunnel.Frames.{Event, channel_number, raw_of, delivered}
use open_console.Web.Tunnel.Quiet.{Allows, Quiet-fail, Quiet-handle_as, Quiet-ping}
use open_console.Web.Tunnel.Order.{shown_by, plains, arrivals, view, shown_in_order}

abbrev IsAny : Effect → Type 0
IsAny e = Unit

IsAny-allows : Allows IsAny
IsAny-allows = record { status = λ s r. tt; closed = tt; size = λ c r. tt; access = λ b. tt }

-- As many links of the chain as there are frames.
abbrev pub deliveries : List Frame → List Event
deliveries [] = []
deliveries (f ∷ fs) = delivered ∷ deliveries fs

module _ (w : WebCrypto) (o : Options w) where
  show_data-inbound :
      (c : Option (Session w)) (channel : ℕ) (payload : Bytes) (t : Tunnel)
      → (show_data w o c channel payload t).inbound ≡ t.inbound
  show_data-inbound none channel payload t = refl
  show_data-inbound (some s) channel payload t = by_result (open_from_host w s channel payload)
    where
      by_result : (r : Crypto.Result Bytes) → (show_opened w o r t).inbound ≡ t.inbound
      by_result (Crypto.ok plain) = refl
      by_result (Crypto.err e) = (Quiet-fail {Q = IsAny} IsAny-allows bad_decrypt t).inbound

  handle_as-inbound :
      (type : FrameType) (f : Frame) (t : Tunnel) → (handle_as w o type f t).inbound ≡ t.inbound
  handle_as-inbound data_frame f t =
      unfold handle_as in show_data-inbound o.crypto (channel_number f.channel) (raw_of f.payload) t
  handle_as-inbound ping f t = (Quiet-ping w o {Q = IsAny} IsAny-allows f t (λ j. tt)).inbound
  handle_as-inbound type f t =
      (Quiet-handle_as w o {Q = IsAny} IsAny-allows type f t (λ e. cc e) (λ e. cc e)).inbound

  deliver_from-inbound :
      (f : Frame) (fs : List Frame) (t : Tunnel) → (deliver_from w o (f ∷ fs) t).inbound ≡ fs
  deliver_from-inbound f fs t = handle_as-inbound f.type f (record t { inbound = fs })

  deliver-inbound :
      (f : Frame) (fs : List Frame) (t : Tunnel)
      → t.inbound ≡ f ∷ fs
      → (step w o t delivered).inbound ≡ fs
  unfolding step deliver
  deliver-inbound f fs t e =
      ap (λ l. (deliver_from w o l t).inbound) e ∙ deliver_from-inbound f fs t

  drained :
      (fs : List Frame) (t : Tunnel) → t.inbound ≡ fs → (run w o t (deliveries fs)).inbound ≡ []
  unfolding run
  drained [] t e = e
  drained (f ∷ fs) t e = drained fs (step w o t delivered) (deliver-inbound f fs t e)

  no_arrivals : (fs : List Frame) (t : Tunnel) → arrivals w o t (deliveries fs) ≡ []
  unfolding arrivals
  no_arrivals [] t = refl
  no_arrivals (f ∷ fs) t = no_arrivals fs (step w o t delivered)

  view-drained : (t : Tunnel) → t.inbound ≡ [] → view w o t ≡ shown_by t.log
  unfolding plains
  view-drained t e = rw e (append-nil (shown_by t.log))

  -- Whatever has happened to a tunnel, when the chain has run as many more links as there are
  -- frames that wait, none waits any longer, and the terminal has been given what it was given or
  -- waited before, followed by what all the frames held that arrived since, in order: no frame is
  -- left behind.
  pub drained-shows :
      (es : List Event) (t : Tunnel)
      → ((run w o (run w o t es) (deliveries (run w o t es).inbound)).inbound ≡ [])
        × (shown_by (run w o (run w o t es) (deliveries (run w o t es).inbound)).log
            ≡ view w o t ++ plains w o (arrivals w o t es))
  unfolding plains
  drained-shows es t =
      let u = run w o t es in
      let v = run w o u (deliveries u.inbound) in
      let empty = drained u.inbound u refl in
      (
        empty,
        sym (view-drained v empty)
            ∙ shown_in_order w o (deliveries u.inbound) u
            ∙ ap (λ l. view w o u ++ plains w o l) (no_arrivals u.inbound u)
            ∙ append-nil (view w o u)
            ∙ shown_in_order w o es t,
      )
