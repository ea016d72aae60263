-- ===== src/Web/Page/Terminal.antt =====
-- What main.ts writes to the terminal: the text of what its tunnels hand over, one after the other.
use open_console.Prelude.{
  All, Bool, Bytes, List, Option, Text, [], false, get_elem?, if◌then◌else◌, none, refl, some,
  subst, sym, true, ◌||◌, ℕ, ◌∙◌, ◌∷◌, ◌≡◌,
}
use open_console.Web.Crypto
use open_console.Web.Crypto.{WebCrypto, Session, KeyKind, from_ticket_key}
use open_console.Web.Locator.{SessionLocator}
use open_console.Web.Utf8.{text_encode, is_scalar}
use open_console.Web.TextDecoder.{after_mark}
use open_console.Web.TextDecoder.Chunks.{joined, decode_all-text_encode}
use open_console.Web.Tunnel.State.{failed, fresh}
use open_console.Web.Tunnel.{connect}
use open_console.Web.Tunnel.Frames.{Event, typed, closed_by_user}
use open_console.Web.Page.View.{set_badge}
use open_console.Web.Page.Fit.{Floats, Proposal}
use open_console.Web.Page.{
  Page, cleared, Happening, on_socket, typed_text, binary_text, clicked, window_resized, unloading,
  connect_page, opened_page, on_tunnel, react, happen, live, refit_page, on_term, click, heard_from,
  options_of, low_bytes, is_some, start, with_session, with_key, show_session,
}
use open_console.Web.Page.Written.{
  heard_in, heard_while, Wrote, payloads-append, Wrote-trans, Wrote-nil, same-Wrote, refit-Wrote,
  status-Wrote, effects-Wrote, payloads, written,
}

module _ (w : WebCrypto) (n : Floats) where
  connect-Wrote :
      (created : Bool) (p : Page w n)
      → Wrote w n p
          (payloads (connect w (options_of w n p) created fresh).log)
          (connect_page w n created p)
  unfolding connect_page
  connect-Wrote created p =
      let k = effects-Wrote w n (connect w (options_of w n p) created fresh).log _ in
      record { text = k.text; decoder = k.decoder }

  tunnel-Wrote :
      (k : ℕ) (e : Event) (p : Page w n)
      → Wrote w n p (payloads (heard_from w n e (get_elem? p.connections k))) (on_tunnel w n k e p)
  unfolding on_tunnel
  tunnel-Wrote k e p =
      let h = effects-Wrote w n (heard_from w n e (get_elem? p.connections k)) _ in
      record { text = h.text; decoder = h.decoder }

  react-Wrote :
      (h : Happening w n) (p : Page w n) → Wrote w n p (payloads (heard_in w n p h)) (react w n p h)
  unfolding react
  react-Wrote (on_socket k e) p = tunnel-Wrote k e p
  react-Wrote (typed_text t) p = tunnel-Wrote 0 (typed (text_encode t)) p
  react-Wrote (binary_text t) p = tunnel-Wrote 0 (typed (low_bytes t)) p
  react-Wrote (clicked created) p = by_click (p.view.overlay_hidden || p.view.action_hidden)
    where
      by_click :
          (b : Bool)
          → Wrote w n p
              (payloads (if b then [] else (connect w (options_of w n p) created fresh).log))
              (if b then p else click w n created p)
      by_click true = same-Wrote w n p p refl refl
      by_click false =
          Wrote-trans w n (Wrote-nil w n p (on_term w n cleared p) (cleared ∷ []) refl refl refl)
            (connect-Wrote created (on_term w n cleared p))
  react-Wrote (window_resized window) p =
      let k = refit-Wrote w n (record p { window = window }) in
      record { text = k.text; decoder = k.decoder }
  react-Wrote unloading p = tunnel-Wrote 0 closed_by_user p

  happen-Wrote :
      (b : Bool) (h : Happening w n) (p : Page w n)
      → Wrote w n p (payloads (if b then heard_in w n p h else [])) (if b then react w n p h else p)
  happen-Wrote true h p = react-Wrote h p
  happen-Wrote false h p = same-Wrote w n p p refl refl

  live-Wrote :
      (hs : List (Happening w n)) (p : Page w n)
      → Wrote w n p (payloads (heard_while w n p hs)) (live w n p hs)
  unfolding live happen
  live-Wrote [] p = same-Wrote w n p p refl refl
  live-Wrote (h ∷ hs) p =
      let now = if p.wired then heard_in w n p h else [] in
      let next = if p.wired then react w n p h else p in
      subst (λ x. Wrote w n p x (live w n next hs))
        (sym (payloads-append w n now (heard_while w n next hs)))
        (Wrote-trans w n (happen-Wrote p.wired h p) (live-Wrote hs next))

  connect-payloads :
      (created : Bool) (p : Page w n)
      → payloads (connect w (options_of w n p) created fresh).log ≡ []
  unfolding connect
  connect-payloads true p = refl
  connect-payloads false p = refl

  start-Wrote : (created : Bool) (p : Page w n) → Wrote w n p [] (start w n created p)
  start-Wrote created p =
      let begun = record p { view = set_badge (is_some w n p.crypto) p.view; wired = true } in
      let fitted = refit_page w n begun in
      let k = refit-Wrote w n begun in
      Wrote-trans w n (record { text = k.text; decoder = k.decoder })
        (subst (λ x. Wrote w n fitted x (connect_page w n created fitted))
          (connect-payloads created fitted) (connect-Wrote created fitted))

  with_session-Wrote :
      (r : Crypto.Result (Session w)) (created : Bool) (p : Page w n)
      → Wrote w n p [] (with_session w n r created p)
  with_session-Wrote (Crypto.err x) created p = status-Wrote w n failed _ p
  with_session-Wrote (Crypto.ok s) created p =
      let k = start-Wrote created (record p { crypto = some s }) in
      record { text = k.text; decoder = k.decoder }

  with_key-Wrote :
      (key : Option Bytes) (kind : Option KeyKind) (created : Bool) (p : Page w n)
      → Wrote w n p [] (with_key w n key kind created p)
  with_key-Wrote (some key) (some kind) created p = with_session-Wrote _ created p
  with_key-Wrote (some key) none created p = start-Wrote created p
  with_key-Wrote none (some kind) created p = start-Wrote created p
  with_key-Wrote none none created p = start-Wrote created p

  session-Wrote :
      (window : Proposal n) (l : SessionLocator) (created : Bool) (hs : List (Happening w n))
      → Wrote w n
          (opened_page w n window l)
          (payloads (heard_while w n (show_session w n window l created) hs))
          (live w n (show_session w n window l created) hs)
  unfolding show_session
  session-Wrote window l created hs =
      let p = opened_page w n window l in
      Wrote-trans w n (with_key-Wrote l.key l.key_kind created p)
        (live-Wrote hs (with_key w n l.key l.key_kind created p))

  -- If the data that the tunnels of a page hand over, whichever tunnel it comes from and in
  -- whatever chunks, is the UTF-8 of a text, then all that the page has written to its terminal is
  -- that text, less a byte order mark at its start.
  pub live-written :
      (window : Proposal n) (l : SessionLocator) (created : Bool) (hs : List (Happening w n))
      (s : Text)
      → All (λ c. is_scalar c ≡ true) s
      → joined (payloads (heard_while w n (show_session w n window l created) hs)) ≡ text_encode s
      → written (live w n (show_session w n window l created) hs).term ≡ (after_mark false s).1
  live-written window l created hs s h j =
      (session-Wrote window l created hs).text ∙ decode_all-text_encode s _ h j
