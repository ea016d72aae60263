-- ===== src/Web/Page/Overlay.antt =====
-- The elements that main.ts shows together: the dot, the overlay and its action; the access label and
-- the terminal's input.
use open_console.Prelude.{Bool, List, Option, false, none, not, refl, some, true, ◌≡◌}
use open_console.Web.Crypto.{WebCrypto}
use open_console.Web.Locator.{SessionLocator}
use open_console.Web.Tunnel.State.{Status, connecting, connected, closed, failed}
use open_console.Web.Page.View.{Screen, Words, set_status}
use open_console.Web.Page.Fit.{Floats, Proposal}
use open_console.Web.Page.{Happening, show_session, live}
use open_console.Web.Page.Invariant.{IsShown, shown-IsKept, session-IsKept}

-- What the overlay and its action are, by the status dot.
abbrev pub HasOverlay : Option Status → Bool → Bool → Type 0
HasOverlay none overlay_hidden action_hidden = overlay_hidden ≡ true
HasOverlay (some connecting) overlay_hidden action_hidden = overlay_hidden ≡ true
HasOverlay (some connected) overlay_hidden action_hidden = overlay_hidden ≡ true
HasOverlay (some closed) overlay_hidden action_hidden =
    (overlay_hidden ≡ false) × (action_hidden ≡ true)
HasOverlay (some failed) overlay_hidden action_hidden =
    (overlay_hidden ≡ false) × (action_hidden ≡ false)

-- The overlay stands over the terminal exactly when the dot says that the session has ended or
-- failed, with the action only in the second case. The label is there exactly when the terminal
-- takes no input, and the cursor blinks otherwise.
pub record IsCoherent (v : Screen) : Type 0 where
  pub overlay : HasOverlay v.dot v.overlay_hidden v.action_hidden
  pub label : v.access_hidden ≡ not v.disable_stdin
  pub cursor : v.cursor_blink ≡ not v.disable_stdin

status-IsCoherent :
    (s : Status) (d : Option Words) (v : Screen) → IsCoherent v → IsCoherent (set_status s d v)
unfolding set_status
status-IsCoherent connecting d v h = record { overlay = refl; label = h.label; cursor = h.cursor }
status-IsCoherent connected d v h = record { overlay = refl; label = h.label; cursor = h.cursor }
status-IsCoherent closed d v h = record {
  overlay = (refl, refl);
  label = h.label;
  cursor = h.cursor;
}
status-IsCoherent failed d v h = record {
  overlay = (refl, refl);
  label = h.label;
  cursor = h.cursor;
}

shown-IsCoherent : (w : WebCrypto) (n : Floats) → IsShown w n IsCoherent
shown-IsCoherent w n = record {
  status = status-IsCoherent;
  access = λ b v h. record { overlay = h.overlay; label = refl; cursor = refl };
  badge = λ b v h. record { overlay = h.overlay; label = h.label; cursor = h.cursor };
}

-- Whatever the user, the relay and the sockets do to the page of a session, with several tunnels
-- too: the overlay covers the terminal exactly when the dot says that the session has ended or
-- failed, its action can be clicked only when it has failed, and the read-only label is shown
-- exactly when the terminal takes no input.
pub live-IsCoherent :
    (w : WebCrypto) (n : Floats) (window : Proposal n) (l : SessionLocator) (created : Bool)
    (hs : List (Happening w n))
    → IsCoherent (live w n (show_session w n window l created) hs).view
live-IsCoherent w n window l created hs =
    session-IsKept w n (λ p. IsCoherent p.view) (shown-IsKept w n IsCoherent (shown-IsCoherent w n))
      window l created hs (record { overlay = refl; label = refl; cursor = refl })
