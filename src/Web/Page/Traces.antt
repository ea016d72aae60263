-- ===== src/Web/Page/Traces.antt =====
-- The page of web/src/main.ts and its tunnels: each is a run of the class in tunnel.ts, with the keys
-- of the link.
use mathlib.Core.Option.{some-injective, none-ne-some}
use open_console.Prelude.{
  All, Bool, Bytes, List, Option, [], ap, false, none, refl, some, subst, sym, true, ◌∙◌, ◌∷◌, ◌≡◌,
}
use open_console.Web.Crypto
use open_console.Web.Crypto.{WebCrypto, Session, KeyKind, from_ticket_key}
use open_console.Web.Locator.{SessionLocator}
use open_console.Web.Tunnel.State.{Options, failed, fresh}
use open_console.Web.Tunnel.{connect}
use open_console.Web.Tunnel.Sealed.{IsSealed, sends_only-IsSealed}
use open_console.Web.Page.View.{set_badge}
use open_console.Web.Page.Fit.{Floats, Proposal}
use open_console.Web.Page.{
  Page, Connection, Happening, opened_page, is_some, start, with_session, with_key, show_session,
  live,
}
use open_console.Web.Page.Keeps.{refit-Keeps, status-Keeps}
use open_console.Web.Page.Faithful.{
  IsTraced, IsLinkKeys, IsFaithful, kept, connect-IsFaithful, live-IsFaithful,
}

module _ (w : WebCrypto) (n : Floats) where
  start-IsFaithful :
      (l : SessionLocator) (created : Bool) (p : Page w n)
      → ((s : Session w) → p.crypto ≡ some s → IsLinkKeys w n l s)
      → p.connections ≡ []
      → IsFaithful w n l (start w n created p)
  start-IsFaithful l created p keys fresh_page = connect-IsFaithful w n l created _ (
      kept w n l (record p { view = set_badge (is_some w n p.crypto) p.view; wired = true }) _
        (refit-Keeps w n _)
        (record {
          keys = keys;
          badge = λ e. some-injective _ _ e;
          traced = subst (All (IsTraced w n p.crypto)) (sym fresh_page) tt;
        }))

  with_session-IsFaithful :
      (r : Crypto.Result (Session w)) (key : Bytes) (kind : KeyKind) (created : Bool)
      (window : Proposal n) (l : SessionLocator)
      → l.key ≡ some key
      → l.key_kind ≡ some kind
      → from_ticket_key w l.session_id key kind ≡ r
      → IsFaithful w n l (with_session w n r created (opened_page w n window l))
  with_session-IsFaithful (Crypto.err x) key kind created window l a b c =
      kept w n l (opened_page w n window l) _ (status-Keeps w n failed _ _) (record {
        keys = λ s e. absurd (none-ne-some s e);
        badge = λ e. absurd (none-ne-some true e);
        traced = tt;
      })
  with_session-IsFaithful (Crypto.ok s) key kind created window l a b c =
      start-IsFaithful l created (record (opened_page w n window l) { crypto = some s })
        (λ t e. record {
          key = key;
          kind = kind;
          has_key = a;
          has_kind = b;
          derived = c ∙ ap Crypto.ok (some-injective s t e);
        })
        refl

  without_keys :
      (l : SessionLocator) (created : Bool) (window : Proposal n)
      → IsFaithful w n l (start w n created (opened_page w n window l))
  without_keys l created window =
      start-IsFaithful l created (opened_page w n window l) (λ s e. absurd (none-ne-some s e)) refl

  by_key :
      (l : SessionLocator) (created : Bool) (window : Proposal n) (key : Option Bytes)
      (kind : Option KeyKind)
      → l.key ≡ key
      → l.key_kind ≡ kind
      → IsFaithful w n l (with_key w n key kind created (opened_page w n window l))
  by_key l created window (some key) (some kind) a b =
      with_session-IsFaithful _ key kind created window l a b refl
  by_key l created window (some key) none a b = without_keys l created window
  by_key l created window none (some kind) a b = without_keys l created window
  by_key l created window none none a b = without_keys l created window

  show_session-IsFaithful :
      (window : Proposal n) (l : SessionLocator) (created : Bool)
      → IsFaithful w n l (show_session w n window l created)
  unfolding show_session
  show_session-IsFaithful window l created = by_key l created window l.key l.key_kind refl refl

  connect-IsSealed :
      (s : Session w) (o : Options w) (created : Bool)
      → All (IsSealed w s) (connect w o created fresh).log
  unfolding connect
  connect-IsSealed s o true = (tt, tt)
  connect-IsSealed s o false = (tt, (tt, tt))

  traced-IsSealed :
      (s : Session w) (keys : Option (Session w)) (cs : List (Connection w n))
      → keys ≡ some s
      → All (IsTraced w n keys) cs
      → All (λ c. All (IsSealed w s) c.tunnel.log) cs
  traced-IsSealed s keys [] e h = tt
  traced-IsSealed s keys (c ∷ cs) e h = (
    subst (λ t. All (IsSealed w s) t.log) (sym h.0.ran)
        (sends_only-IsSealed w s c.options (h.0.keyed ∙ e) h.0.events _
          (connect-IsSealed s c.options h.0.created)),
    traced-IsSealed s keys cs e h.1,
  )

  keys_at : (o : Option (Session w)) → is_some w n o ≡ true → (s : Session w) × (o ≡ some s)
  keys_at none e = absurd (cc e)
  keys_at (some s) e = (s, refl)

  -- While the badge of the page says that the session is encrypted, the link holds a key that
  -- derives the session's keys, and on every tunnel that the page has opened, old or new, all DATA
  -- that was sent is sealed with these keys, whatever the user, the relay and the sockets did.
  pub badge-IsSealed :
      (window : Proposal n) (l : SessionLocator) (created : Bool) (hs : List (Happening w n))
      → (live w n (show_session w n window l created) hs).view.badge ≡ some true
      → (s : Session w) × IsLinkKeys w n l s
        × All
            (λ c. All (IsSealed w s) c.tunnel.log)
            (live w n (show_session w n window l created) hs).connections
  badge-IsSealed window l created hs e =
      let f = live-IsFaithful w n l hs _ (show_session-IsFaithful window l created) in
      let k = keys_at _ (f.badge e) in (k.0, f.keys k.0 k.1, traced-IsSealed k.0 _ _ k.1 f.traced)
