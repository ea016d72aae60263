-- ===== src/Web/Page/Faithful.antt =====
-- What every event of the page of main.ts keeps: each tunnel is a run of the class in tunnel.ts with
-- the page's keys, which are those of the link.
use open_console.Prelude.{
  ◌++◌, All, Bool, Bytes, List, Option, [], ap, get_elem?, if-cases, refl, some, subst, suc, sym,
  true, zero, ◌||◌, ℕ, ◌∙◌, ◌∷◌, ◌≡◌,
}
use open_console.Web.Crypto
use open_console.Web.Crypto.{WebCrypto, Session, KeyKind, from_ticket_key}
use open_console.Web.Locator.{SessionLocator}
use open_console.Web.Tunnel.State.{Tunnel, Options, fresh}
use open_console.Web.Tunnel.{connect, step, run}
use open_console.Web.Tunnel.Frames.{Event, typed, closed_by_user}
use open_console.Web.Utf8.{text_encode}
use open_console.Web.Page.Fit.{Floats}
use open_console.Web.Page.{
  Page, Connection, Happening, on_socket, typed_text, binary_text, clicked, window_resized,
  unloading, options_of, connect_page, is_some, stepped, heard_from, update_at, on_tunnel, react,
  happen, live, on_term, cleared, low_bytes,
}
use open_console.Web.Page.Keeps.{Keeps, effects-Keeps, refit-Keeps}

module _ (w : WebCrypto) (n : Floats) where
  -- The tunnel went through some events since `connect`, with the page's keys.
  pub record IsTraced (keys : Option (Session w)) (c : Connection w n) : Type 0 where
    pub created : Bool
    pub events : List Event
    pub ran : c.tunnel ≡ run w c.options (connect w c.options created fresh) events
    pub keyed : c.options.crypto ≡ keys

  run-snoc :
      (o : Options w) (es : List Event) (t : Tunnel) (e : Event)
      → run w o t (es ++ e ∷ []) ≡ step w o (run w o t es) e
  unfolding run
  run-snoc o [] t e = refl
  run-snoc o (x ∷ es) t e = run-snoc o es (step w o t x) e

  run-nil : (o : Options w) (t : Tunnel) → t ≡ run w o t []
  unfolding run
  run-nil o t = refl

  stepped-IsTraced :
      (keys : Option (Session w)) (e : Event) (c : Connection w n)
      → IsTraced keys c
      → IsTraced keys (stepped w n e c)
  stepped-IsTraced keys e c h = record {
    created = h.created;
    events = h.events ++ e ∷ [];
    ran =
        ap (λ t. step w c.options t e) h.ran
        ∙ sym (run-snoc c.options h.events (connect w c.options h.created fresh) e);
    keyed = h.keyed;
  }

  update_at-All :
      (P : Connection w n → Type 0) (k : ℕ) (f : Connection w n → Connection w n)
      (cs : List (Connection w n))
      → ((c : Connection w n) → P c → P (f c))
      → All P cs
      → All P (update_at w n k f cs)
  update_at-All P k f [] g h = tt
  update_at-All P zero f (c ∷ cs) g h = (g c h.0, h.1)
  update_at-All P (suc k) f (c ∷ cs) g h = (h.0, update_at-All P k f cs g h.1)

  -- The keys that the link's own key gives.
  pub record IsLinkKeys (l : SessionLocator) (s : Session w) : Type 0 where
    pub key : Bytes
    pub kind : KeyKind
    pub has_key : l.key ≡ some key
    pub has_kind : l.key_kind ≡ some kind
    pub derived : from_ticket_key w l.session_id key kind ≡ Crypto.ok s

  -- The page's keys are the link's, its badge does not promise more, and its tunnels use them.
  pub record IsFaithful (l : SessionLocator) (p : Page w n) : Type 0 where
    pub keys : (s : Session w) → p.crypto ≡ some s → IsLinkKeys l s
    pub badge : p.view.badge ≡ some true → is_some w n p.crypto ≡ true
    pub traced : All (IsTraced p.crypto) p.connections

  pub kept : (l : SessionLocator) (p q : Page w n) → Keeps w n p q → IsFaithful l p → IsFaithful l q
  kept l p q k h = record {
    keys = λ s e. h.keys s (sym k.crypto ∙ e);
    badge = λ e. ap (is_some w n) k.crypto ∙ h.badge (sym k.badge ∙ e);
    traced =
        subst (λ c. All (IsTraced c) q.connections) (sym k.crypto)
          (subst (λ cs. All (IsTraced p.crypto) cs) (sym k.connections) h.traced);
  }

  pub connect-IsFaithful :
      (l : SessionLocator) (created : Bool) (p : Page w n)
      → IsFaithful l p
      → IsFaithful l (connect_page w n created p)
  unfolding connect_page
  connect-IsFaithful l created p h =
      let c : Connection w n = record {
        options = options_of w n p;
        tunnel = connect w (options_of w n p) created fresh;
      } in
      kept l (record p { connections = c ∷ p.connections }) _ (effects-Keeps w n c.tunnel.log _)
        (record {
          keys = h.keys;
          badge = h.badge;
          traced = (
            record {
              created = created;
              events = [];
              ran = run-nil (options_of w n p) c.tunnel;
              keyed = refl;
            },
            h.traced,
          );
        })

  tunnel-IsFaithful :
      (l : SessionLocator) (k : ℕ) (e : Event) (p : Page w n)
      → IsFaithful l p
      → IsFaithful l (on_tunnel w n k e p)
  unfolding on_tunnel
  tunnel-IsFaithful l k e p h =
      kept l (record p { connections = update_at w n k (stepped w n e) p.connections }) _
        (effects-Keeps w n (heard_from w n e (get_elem? p.connections k)) _)
        (record {
          keys = h.keys;
          badge = h.badge;
          traced =
              update_at-All (IsTraced p.crypto) k (stepped w n e) p.connections
                (stepped-IsTraced p.crypto e) h.traced;
        })

  react-IsFaithful :
      (l : SessionLocator) (h : Happening w n) (p : Page w n)
      → IsFaithful l p
      → IsFaithful l (react w n p h)
  unfolding react
  react-IsFaithful l (on_socket k e) p f = tunnel-IsFaithful l k e p f
  react-IsFaithful l (typed_text t) p f = tunnel-IsFaithful l 0 (typed (text_encode t)) p f
  react-IsFaithful l (binary_text t) p f = tunnel-IsFaithful l 0 (typed (low_bytes t)) p f
  react-IsFaithful l (clicked created) p f =
      if-cases {A = Page w n} (IsFaithful l) (p.view.overlay_hidden || p.view.action_hidden) _ _
        (λ no. f)
        (λ yes.
          connect-IsFaithful l created (on_term w n cleared p)
            (record { keys = f.keys; badge = f.badge; traced = f.traced }))
  react-IsFaithful l (window_resized window) p f =
      kept l (record p { window = window }) _ (refit-Keeps w n _)
        (record { keys = f.keys; badge = f.badge; traced = f.traced })
  react-IsFaithful l unloading p f = tunnel-IsFaithful l 0 closed_by_user p f

  pub live-IsFaithful :
      (l : SessionLocator) (hs : List (Happening w n)) (p : Page w n)
      → IsFaithful l p
      → IsFaithful l (live w n p hs)
  unfolding live happen
  live-IsFaithful l [] p f = f
  live-IsFaithful l (h ∷ hs) p f = live-IsFaithful l hs _ (
      if-cases {A = Page w n} (IsFaithful l) p.wired _ _ (λ on. react-IsFaithful l h p f)
        (λ off. f))
