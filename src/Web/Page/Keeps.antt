-- ===== src/Web/Page/Keeps.antt =====
-- What the handlers of web/src/main.ts leave alone: keys, badge, tunnels and listeners.
use open_console.Prelude.{Bool, List, Option, [], false, refl, true, ◌∙◌, ◌∷◌, ◌≡◌}
use open_console.Web.Crypto.{WebCrypto}
use open_console.Web.Tunnel.State.{
  Effect, Status, connecting, connected, closed, failed, status, shown, resized, access,
  sent_control, sent_data, socket_closed,
}
use open_console.Web.Page.View.{Words, Screen, set_status}
use open_console.Web.Page.Fit.{Floats, refit}
use open_console.Web.Page.{
  Page, resize_term, refit_page, focus_when, on_status, on_data, on_effect, on_effects,
}

module _ (w : WebCrypto) (n : Floats) where
  pub record Keeps (p q : Page w n) : Type 0 where
    pub crypto : q.crypto ≡ p.crypto
    pub badge : q.view.badge ≡ p.view.badge
    pub connections : q.connections ≡ p.connections
    pub wired : q.wired ≡ p.wired
    pub locator : q.locator ≡ p.locator

  pub Keeps-trans : {p q r : Page w n} → Keeps p q → Keeps q r → Keeps p r
  Keeps-trans k l = record {
    crypto = l.crypto ∙ k.crypto;
    badge = l.badge ∙ k.badge;
    connections = l.connections ∙ k.connections;
    wired = l.wired ∙ k.wired;
    locator = l.locator ∙ k.locator;
  }

  pub Keeps-refl : (p : Page w n) → Keeps p p
  Keeps-refl p = record {
    crypto = refl;
    badge = refl;
    connections = refl;
    wired = refl;
    locator = refl;
  }

  resize-Keeps : (b : Bool) (p : Page w n) → Keeps p (resize_term w n b p)
  resize-Keeps true p = record {
    crypto = refl;
    badge = refl;
    connections = refl;
    wired = refl;
    locator = refl;
  }
  resize-Keeps false p = Keeps-refl p

  pub refit-Keeps : (p : Page w n) → Keeps p (refit_page w n p)
  unfolding refit_page
  refit-Keeps p =
      let r = refit n p.window p.host_cols p.host_rows p.font in
      let k = resize-Keeps r.1 (record p { font = r.0 }) in
      record {
        crypto = k.crypto;
        badge = k.badge;
        connections = k.connections;
        wired = k.wired;
        locator = k.locator;
      }

  set_status-badge :
      (s : Status) (d : Option Words) (v : Screen) → (set_status s d v).badge ≡ v.badge
  unfolding set_status
  set_status-badge connecting d v = refl
  set_status-badge connected d v = refl
  set_status-badge closed d v = refl
  set_status-badge failed d v = refl

  focus-Keeps : (s : Status) (p : Page w n) → Keeps p (focus_when w n s p)
  focus-Keeps connected p = record {
    crypto = refl;
    badge = refl;
    connections = refl;
    wired = refl;
    locator = refl;
  }
  focus-Keeps connecting p = Keeps-refl p
  focus-Keeps closed p = Keeps-refl p
  focus-Keeps failed p = Keeps-refl p

  pub status-Keeps : (s : Status) (d : Option Words) (p : Page w n) → Keeps p (on_status w n s d p)
  unfolding on_status
  status-Keeps s d p =
      let k = focus-Keeps s (record p { view = set_status s d p.view }) in
      record {
        crypto = k.crypto;
        badge = k.badge ∙ set_status-badge s d p.view;
        connections = k.connections;
        wired = k.wired;
        locator = k.locator;
      }

  effect-Keeps : (e : Effect) (p : Page w n) → Keeps p (on_effect w n e p)
  unfolding on_effect on_data
  effect-Keeps (shown bytes) p = record {
    crypto = refl;
    badge = refl;
    connections = refl;
    wired = refl;
    locator = refl;
  }
  effect-Keeps (resized c r) p =
      let k = refit-Keeps (record p { host_cols = c; host_rows = r }) in
      record {
        crypto = k.crypto;
        badge = k.badge;
        connections = k.connections;
        wired = k.wired;
        locator = k.locator;
      }
  effect-Keeps (status s r) p = status-Keeps s _ p
  effect-Keeps (access b) p = record {
    crypto = refl;
    badge = refl;
    connections = refl;
    wired = refl;
    locator = refl;
  }
  effect-Keeps (sent_control j) p = Keeps-refl p
  effect-Keeps (sent_data d) p = Keeps-refl p
  effect-Keeps socket_closed p = Keeps-refl p

  pub effects-Keeps : (es : List Effect) (p : Page w n) → Keeps p (on_effects w n es p)
  unfolding on_effects
  effects-Keeps [] p = Keeps-refl p
  effects-Keeps (e ∷ es) p = Keeps-trans (effect-Keeps e p) (effects-Keeps es (on_effect w n e p))
