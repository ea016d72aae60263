-- ===== src/Web/Page/Invariant.antt =====
-- Invariants of the session view of web/src/main.ts, from what its steps do.
use open_console.Prelude.{
  Bool, Bytes, List, Option, [], false, get_elem?, if-cases, none, some, true, ◌||◌, ℕ, ◌∷◌,
}
use open_console.Web.Crypto
use open_console.Web.Crypto.{WebCrypto, Session, KeyKind, from_ticket_key}
use open_console.Web.Locator.{SessionLocator}
use open_console.Web.Utf8.{text_encode}
use open_console.Web.Tunnel.State.{
  Effect, Status, failed, connecting, connected, closed, status, shown, resized, access,
  sent_control, sent_data, socket_closed, fresh,
}
use open_console.Web.Tunnel.{connect}
use open_console.Web.Tunnel.Frames.{Event, typed, closed_by_user}
use open_console.Web.Page.View.{Words, Screen, set_status, set_access, set_badge}
use open_console.Web.Page.Fit.{Floats, Proposal, refit}
use open_console.Web.Page.{
  Page, Connection, Happening, on_socket, typed_text, binary_text, clicked, window_resized,
  unloading, on_effect, on_effects, connect_page, opened_page, is_some, start, with_session,
  with_key, show_session, on_tunnel, react, happen, live, on_status, refit_page, on_term, cleared,
  resize_term, options_of, heard_from, update_at, stepped, low_bytes, focus_when, on_data,
}

module _ (w : WebCrypto) (n : Floats) where
  -- A predicate that every step of the page keeps.
  pub record IsKept (P : Page w n → Type 0) : Type 0 where
    pub effect : (e : Effect) (p : Page w n) → P p → P (on_effect w n e p)
    pub status : (s : Status) (d : Option Words) (p : Page w n) → P p → P (on_status w n s d p)
    pub window :
        (window : Proposal n) (p : Page w n)
        → P p
        → P (refit_page w n (record p { window = window }))
    pub begin :
        (b : Bool) (p : Page w n)
        → P p
        → P (refit_page w n (record p { view = set_badge b p.view; wired = true }))
    pub clear : (p : Page w n) → P p → P (on_term w n cleared p)
    pub connections :
        (cs : List (Connection w n)) (p : Page w n) → P p → P (record p { connections = cs })
    pub keys : (s : Option (Session w)) (p : Page w n) → P p → P (record p { crypto = s })

  module _ (P : Page w n → Type 0) (k : IsKept P) where
    effects-IsKept : (es : List Effect) (p : Page w n) → P p → P (on_effects w n es p)
    unfolding on_effects
    effects-IsKept [] p h = h
    effects-IsKept (e ∷ es) p h = effects-IsKept es _ (k.effect e p h)

    connect-IsKept : (created : Bool) (p : Page w n) → P p → P (connect_page w n created p)
    unfolding connect_page
    connect-IsKept created p h =
        let c : Connection w n = record {
          options = options_of w n p;
          tunnel = connect w (options_of w n p) created fresh;
        } in
        effects-IsKept c.tunnel.log _ (k.connections (c ∷ p.connections) p h)

    tunnel-IsKept : (i : ℕ) (e : Event) (p : Page w n) → P p → P (on_tunnel w n i e p)
    unfolding on_tunnel
    tunnel-IsKept i e p h =
        effects-IsKept (heard_from w n e (get_elem? p.connections i)) _
          (k.connections (update_at w n i (stepped w n e) p.connections) p h)

    react-IsKept : (h : Happening w n) (p : Page w n) → P p → P (react w n p h)
    unfolding react
    react-IsKept (on_socket i e) p h = tunnel-IsKept i e p h
    react-IsKept (typed_text t) p h = tunnel-IsKept 0 (typed (text_encode t)) p h
    react-IsKept (binary_text t) p h = tunnel-IsKept 0 (typed (low_bytes t)) p h
    react-IsKept (clicked created) p h =
        if-cases {A = Page w n} P (p.view.overlay_hidden || p.view.action_hidden) _ _ (λ no. h)
          (λ yes. connect-IsKept created _ (k.clear p h))
    react-IsKept (window_resized window) p h = k.window window p h
    react-IsKept unloading p h = tunnel-IsKept 0 closed_by_user p h

    live-IsKept : (hs : List (Happening w n)) (p : Page w n) → P p → P (live w n p hs)
    unfolding live happen
    live-IsKept [] p h = h
    live-IsKept (x ∷ xs) p h =
        live-IsKept xs _
          (if-cases {A = Page w n} P p.wired _ _ (λ on. react-IsKept x p h) (λ off. h))

    start-IsKept : (created : Bool) (p : Page w n) → P p → P (start w n created p)
    start-IsKept created p h = connect-IsKept created _ (k.begin (is_some w n p.crypto) p h)

    with_session-IsKept :
        (r : Crypto.Result (Session w)) (created : Bool) (p : Page w n)
        → P p
        → P (with_session w n r created p)
    with_session-IsKept (Crypto.err x) created p h = k.status failed _ p h
    with_session-IsKept (Crypto.ok s) created p h = start-IsKept created _ (k.keys (some s) p h)

    with_key-IsKept :
        (key : Option Bytes) (kind : Option KeyKind) (created : Bool) (p : Page w n)
        → P p
        → P (with_key w n key kind created p)
    with_key-IsKept (some key) (some kind) created p h = with_session-IsKept _ created p h
    with_key-IsKept (some key) none created p h = start-IsKept created p h
    with_key-IsKept none (some kind) created p h = start-IsKept created p h
    with_key-IsKept none none created p h = start-IsKept created p h

    -- What holds of the page before anything was done holds from then on.
    pub session-IsKept :
        (window : Proposal n) (l : SessionLocator) (created : Bool) (hs : List (Happening w n))
        → P (opened_page w n window l)
        → P (live w n (show_session w n window l created) hs)
    unfolding show_session
    session-IsKept window l created hs h =
        live-IsKept hs _ (with_key-IsKept l.key l.key_kind created _ h)

  -- A predicate on what is shown.
  pub record IsShown (V : Screen → Type 0) : Type 0 where
    pub status : (s : Status) (d : Option Words) (v : Screen) → V v → V (set_status s d v)
    pub access : (b : Bool) (v : Screen) → V v → V (set_access b v)
    pub badge : (b : Bool) (v : Screen) → V v → V (set_badge b v)

  module _ (V : Screen → Type 0) (k : IsShown V) where
    resize-view : (b : Bool) (p : Page w n) → V p.view → V (resize_term w n b p).view
    resize-view true p h = h
    resize-view false p h = h

    refit-view : (p : Page w n) → V p.view → V (refit_page w n p).view
    unfolding refit_page
    refit-view p h =
        let r = refit n p.window p.host_cols p.host_rows p.font in
        resize-view r.1 (record p { font = r.0 }) h

    focus-view : (s : Status) (p : Page w n) → V p.view → V (focus_when w n s p).view
    focus-view connected p h = h
    focus-view connecting p h = h
    focus-view closed p h = h
    focus-view failed p h = h

    status-view :
        (s : Status) (d : Option Words) (p : Page w n) → V p.view → V (on_status w n s d p).view
    unfolding on_status
    status-view s d p h =
        focus-view s (record p { view = set_status s d p.view }) (k.status s d p.view h)

    effect-view : (e : Effect) (p : Page w n) → V p.view → V (on_effect w n e p).view
    unfolding on_effect on_data
    effect-view (shown bytes) p h = h
    effect-view (resized c r) p h = refit-view (record p { host_cols = c; host_rows = r }) h
    effect-view (status s r) p h = status-view s _ p h
    effect-view (access b) p h = k.access b p.view h
    effect-view (sent_control j) p h = h
    effect-view (sent_data d) p h = h
    effect-view socket_closed p h = h

    pub shown-IsKept : IsKept (λ p. V p.view)
    shown-IsKept = record {
      effect = effect-view;
      status = status-view;
      window = λ window p h. refit-view (record p { window = window }) h;
      begin = λ b p h.
          refit-view (record p { view = set_badge b p.view; wired = true }) (k.badge b p.view h);
      clear = λ p h. h;
      connections = λ cs p h. h;
      keys = λ s p h. h;
    }
