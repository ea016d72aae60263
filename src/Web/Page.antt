-- ===== src/Web/Page.antt =====
-- The session view of web/src/main.ts: the terminal, the overlay and the tunnels that it opens.
--
-- Every tunnel that was opened stays in `connections`, the newest first: `tunnel` is the newest, and
-- an older one still gets the events of its own socket, and calls the same handlers. `term` is what
-- was called on the terminal, in order. `wired` says that the listeners are registered.
pub mod View
pub mod Fit
pub mod Keeps
pub mod Invariant
pub mod Overlay
pub mod Written
pub mod Terminal
pub mod Reconnect
pub mod Entry
pub mod Arrival
pub mod Fonts
pub mod Faithful
pub mod Traces
use open_console.Prelude.{
  ◌%◌, ◌++◌, Bool, Bytes, List, Option, Text, [], false, get_elem?, if◌then◌else◌, none, some, suc,
  true, zero, ◌||◌, ℕ, ◌∷◌,
}
use open_console.Web.Json.{Number, nat}
use open_console.Web.Crypto.{WebCrypto, Session, KeyKind, from_ticket_key}
use open_console.Web.Crypto
use open_console.Web.Utf8.{text_encode}
use open_console.Web.TextDecoder.{Decoder, new_decoder, decode}
use open_console.Web.Locator.{SessionLocator}
use open_console.Web.Tunnel.State.{
  Tunnel, Options, Effect, Reason, Status, fresh, status, shown, resized, access, sent_control,
  sent_data, socket_closed, connected, failed,
}
use open_console.Web.Tunnel.{connect, step}
use open_console.Web.Tunnel.Frames.{Event, typed, closed_by_user}
use View.{Screen, Words, blank, because, unusable_key, set_status, set_access, set_badge}
use Fit.{Floats, Proposal, refit, base_font}

pub data TermOp : Type 0 where
  wrote : Text → TermOp
  grid : Number → Number → TermOp
  cleared focused : TermOp

-- `data.charCodeAt(i) & 0xff`
abbrev pub low_bytes : Text → Bytes
low_bytes [] = []
low_bytes (c ∷ cs) = (c % 256) ∷ low_bytes cs

module _ (w : WebCrypto) (n : Floats) where
  pub record Connection : Type 0 where
    pub options : Options w
    pub tunnel : Tunnel

  pub record Page : Type 0 where
    pub locator : SessionLocator
    pub crypto : Option (Session w)
    pub view : Screen
    pub font : n.R
    pub window : Proposal n
    pub host_cols : Number
    pub host_rows : Number
    pub decoder : Decoder
    pub term : List TermOp
    pub wired : Bool
    pub connections : List Connection

  abbrev pub on_term : TermOp → Page → Page
  on_term op p = record p { term = p.term ++ op ∷ [] }

  abbrev pub resize_term : Bool → Page → Page
  resize_term reached p = if reached then on_term (grid p.host_cols p.host_rows) p else p

  unfoldable pub refit_page : Page → Page
  unfolding refit
  refit_page p =
      let r = refit n p.window p.host_cols p.host_rows p.font in
      resize_term r.1 (record p { font = r.0 })

  -- `setStatus`; the terminal is focused when the tunnel is connected.
  abbrev pub focus_when : Status → Page → Page
  focus_when connected p = on_term focused p
  focus_when _ p = p

  abbrev pub words_of : Option Reason → Option Words
  words_of none = none
  words_of (some r) = some (because r)

  unfoldable pub on_status : Status → Option Words → Page → Page
  unfolding set_status
  on_status s detail p = focus_when s (record p { view = set_status s detail p.view })

  -- `onData`
  unfoldable pub on_data : Bytes → Page → Page
  unfolding decode
  on_data bytes p =
      let r = decode p.decoder bytes in on_term (wrote r.1) (record p { decoder = r.0 })

  -- The handlers of a tunnel. What goes to its socket is no matter of the page.
  unfoldable pub on_effect : Effect → Page → Page
  unfolding on_data on_status refit_page
  on_effect (shown bytes) p = on_data bytes p
  on_effect (resized cols rows) p = refit_page (record p { host_cols = cols; host_rows = rows })
  on_effect (status s reason) p = on_status s (words_of reason) p
  on_effect (access limited) p = record p { view = set_access limited p.view }
  on_effect (sent_control j) p = p
  on_effect (sent_data d) p = p
  on_effect socket_closed p = p

  unfoldable pub on_effects : List Effect → Page → Page
  unfolding on_effect
  on_effects [] p = p
  on_effects (e ∷ es) p = on_effects es (on_effect e p)

  abbrev pub options_of : Page → Options w
  options_of p = record {
    session_id = p.locator.session_id;
    token = p.locator.token;
    cols = p.host_cols;
    rows = p.host_rows;
    crypto = p.crypto;
  }

  -- `connect`; `created` says whether `new WebSocket` returns.
  unfoldable pub connect_page : Bool → Page → Page
  unfolding connect on_effects
  connect_page created p =
      let c : Connection = record {
        options = options_of p;
        tunnel = connect w (options_of p) created fresh;
      } in
      on_effects c.tunnel.log (record p { connections = c ∷ p.connections })

  abbrev pub opened_page : Proposal n → SessionLocator → Page
  opened_page window l = record {
    locator = l;
    crypto = none;
    view = record blank { session_hidden = false; label = l.session_id };
    font = n.of_nat base_font;
    window = window;
    host_cols = nat 80;
    host_rows = nat 24;
    decoder = new_decoder;
    term = [];
    wired = false;
    connections = [];
  }

  abbrev pub is_some {ℓ} : {A : Type ℓ} → Option A → Bool
  is_some none = false
  is_some (some a) = true

  abbrev pub start : Bool → Page → Page
  start created p =
      connect_page created
        (refit_page (record p { view = set_badge (is_some p.crypto) p.view; wired = true }))

  -- `await Session.fromTicketKey(…)`, and the `catch` around it.
  abbrev pub with_session : Crypto.Result (Session w) → Bool → Page → Page
  with_session (Crypto.err e) created p = on_status failed (some (unusable_key e)) p
  with_session (Crypto.ok s) created p = start created (record p { crypto = some s })

  abbrev pub with_key : Option Bytes → Option KeyKind → Bool → Page → Page
  with_key (some key) (some kind) created p =
      with_session (from_ticket_key w p.locator.session_id key kind) created p
  with_key _ _ created p = start created p

  unfoldable pub show_session : Proposal n → SessionLocator → Bool → Page
  unfolding on_status refit_page connect_page from_ticket_key
  show_session window l created = with_key l.key l.key_kind created (opened_page window l)

  -- One event of a tunnel, and the calls of the handlers that it makes.
  abbrev pub drop_log : List Effect → List Effect → List Effect
  drop_log [] after = after
  drop_log (e ∷ es) [] = []
  drop_log (e ∷ es) (f ∷ fs) = drop_log es fs

  abbrev pub stepped : Event → Connection → Connection
  stepped e c = record c { tunnel = step w c.options c.tunnel e }

  abbrev pub heard : Event → Connection → List Effect
  heard e c = drop_log c.tunnel.log (step w c.options c.tunnel e).log

  abbrev pub update_at : ℕ → (Connection → Connection) → List Connection → List Connection
  update_at k f [] = []
  update_at zero f (c ∷ cs) = f c ∷ cs
  update_at (suc k) f (c ∷ cs) = c ∷ update_at k f cs

  abbrev pub heard_from : Event → Option Connection → List Effect
  heard_from e none = []
  heard_from e (some c) = heard e c

  unfoldable pub on_tunnel : ℕ → Event → Page → Page
  unfolding step on_effects
  on_tunnel k e p =
      on_effects (heard_from e (get_elem? p.connections k))
        (record p { connections = update_at k (stepped e) p.connections })

  -- What may happen to the page. The action of the overlay can be clicked only where it is shown.
  pub data Happening : Type 0 where
    on_socket : ℕ → Event → Happening
    typed_text binary_text : Text → Happening
    clicked : Bool → Happening
    window_resized : Proposal n → Happening
    unloading : Happening

  abbrev pub click : Bool → Page → Page
  click created p = connect_page created (on_term cleared p)

  unfoldable pub react : Page → Happening → Page
  unfolding on_tunnel connect_page refit_page text_encode
  react p (on_socket k e) = on_tunnel k e p
  react p (typed_text data_text) = on_tunnel 0 (typed (text_encode data_text)) p
  react p (binary_text data_text) = on_tunnel 0 (typed (low_bytes data_text)) p
  react p (clicked created) =
      if p.view.overlay_hidden || p.view.action_hidden then p else click created p
  react p (window_resized window) = refit_page (record p { window = window })
  react p unloading = on_tunnel 0 closed_by_user p

  -- Without `wired`, the code returned before it registered a listener or opened a tunnel.
  unfoldable pub happen : Page → Happening → Page
  unfolding react
  happen p h = if p.wired then react p h else p

  unfoldable pub live : Page → List Happening → Page
  live p [] = p
  live p (h ∷ hs) = live (happen p h) hs
