-- ===== src/Web/Page/Reconnect.antt =====
-- The overlay of main.ts over its tunnels: what the end of an old one does, and an unusable key.
use open_console.Prelude.{
  ◌++◌, Bool, List, Option, [], ap, false, get_elem?, if◌then◌else◌, if-cases, none, not, refl,
  some, subst, sym, true, ℕ, ◌∙◌, ◌∷◌, ◌≡◌, ◌≢◌,
}
use open_console.Web.Crypto
use open_console.Web.Crypto.{WebCrypto}
use open_console.Web.Tunnel.State.{
  Tunnel, Options, Reason, Ending, ReadyState, Effect, Status, failed, closed, connecting,
  connected, status, gone, not_yet, open_now, closing, fail, close_tunnel, closed_early,
  connection_lost,
}
use open_console.Web.Tunnel.{step, on_close, report_end, lose_connection, gone_when}
use open_console.Web.Tunnel.Frames.{socket_gone}
use open_console.Web.Page.View.{set_status}
use open_console.Web.Page.Fit.{Floats}
use open_console.Web.Page.{
  Page, Connection, on_effects, on_effect, on_status, drop_log, on_tunnel, heard, heard_from,
  update_at, stepped, react, react, stepped, update_at,
}

drop_log-append :
    (w : WebCrypto) (n : Floats) (xs ys : List Effect) → drop_log w n xs (xs ++ ys) ≡ ys
drop_log-append w n [] ys = refl
drop_log-append w n (x ∷ xs) ys = drop_log-append w n xs ys

-- The status of a session that is over.
abbrev pub IsOver : Status → Type 0
IsOver closed = Unit
IsOver failed = Unit
IsOver _ = ⊥

-- All that u did since t is to report that the session is over.
record Reports (t u : Tunnel) : Type 0 where
  now : Status
  reason : Reason
  over : IsOver now
  logged : u.log ≡ t.log ++ status now (some reason) ∷ []

module _ (w : WebCrypto) (o : Options w) where
  report_end-Reports : (e : Ending) (t : Tunnel) → Reports t (report_end w o e t)
  report_end-Reports e t = by_grace e.graceful
    where
      by_grace :
          (b : Bool)
          → Reports t (record t {
            log = t.log ++ status (if b then closed else failed) (some e.reason) ∷ [];
          })
      by_grace true = record { now = closed; reason = e.reason; over = tt; logged = refl }
      by_grace false = record { now = failed; reason = e.reason; over = tt; logged = refl }

  early-Reports : (t : Tunnel) → Reports t (fail closed_early (record t { ready = gone }))
  unfolding fail close_tunnel
  early-Reports t = record {
    now = failed;
    reason = closed_early;
    over = tt;
    logged =
        if-cases {A = Tunnel} (λ u. u.log ≡ t.log ++ status failed (some closed_early) ∷ []) t.ws _
          _ (λ on. refl) (λ off. refl);
  }

  by_opened :
      (b : Bool) (t : Tunnel)
      → Reports t (
          if not b
          then fail closed_early (record t { ready = gone })
          else lose_connection w o (record t { ready = gone }))
  by_opened true t = record { now = failed; reason = connection_lost; over = tt; logged = refl }
  by_opened false t = early-Reports t

  by_ending :
      (e : Option Ending) (t : Tunnel)
      → Reports t (elim e [
        | some x ↦ report_end w o x (record t { ready = gone })
        | none ↦
            if not t.opened
            then fail closed_early (record t { ready = gone })
            else lose_connection w o (record t { ready = gone })
      ])
  by_ending none t = by_opened t.opened t
  by_ending (some x) t =
      let r = report_end-Reports x t in
      record { now = r.now; reason = r.reason; over = r.over; logged = r.logged }

  on_close-Reports : (t : Tunnel) → Reports t (on_close w o (record t { ready = gone }))
  unfolding on_close
  on_close-Reports t = by_ending t.ending t

  gone_when-Reports : (r : ReadyState) (t : Tunnel) → r ≢ gone → Reports t (gone_when w o r t)
  gone_when-Reports gone t live_socket = absurd (live_socket refl)
  gone_when-Reports not_yet t live_socket = on_close-Reports t
  gone_when-Reports open_now t live_socket = on_close-Reports t
  gone_when-Reports closing t live_socket = on_close-Reports t

  socket_gone-Reports : (t : Tunnel) → t.ready ≢ gone → Reports t (step w o t socket_gone)
  unfolding step
  socket_gone-Reports t live_socket = gone_when-Reports t.ready t live_socket

module _ (w : WebCrypto) (n : Floats) where
  over-covers :
      (s : Status) (r : Reason) (p : Page w n)
      → IsOver s
      → (on_effects w n (status s (some r) ∷ []) p).view.overlay_hidden ≡ false
  unfolding on_effects on_effect on_status set_status
  over-covers closed r p h = refl
  over-covers failed r p h = refl
  over-covers connecting r p h = elim h [ ]
  over-covers connected r p h = elim h [ ]

  heard-over :
      (c : Connection w n) (p : Page w n)
      → c.tunnel.ready ≢ gone
      → (on_effects w n (heard w n socket_gone c) p).view.overlay_hidden ≡ false
  heard-over c p live_socket =
      let r = socket_gone-Reports w c.options c.tunnel live_socket in
      let told = status r.now (some r.reason) ∷ [] in
      subst (λ es. (on_effects w n es p).view.overlay_hidden ≡ false)
        (sym (ap (drop_log w n c.tunnel.log) r.logged ∙ drop_log-append w n c.tunnel.log told))
        (over-covers r.now r.reason p r.over)

  -- When the socket of any tunnel of the page closes, which it does once, the overlay is shown: also
  -- when it is the socket of an old tunnel, one that the action of the overlay has replaced, and the
  -- newest tunnel is connected.
  pub on_tunnel-covers :
      (p : Page w n) (k : ℕ) (c : Connection w n)
      → get_elem? p.connections k ≡ some c
      → c.tunnel.ready ≢ gone
      → (on_tunnel w n k socket_gone p).view.overlay_hidden ≡ false
  unfolding on_tunnel
  on_tunnel-covers p k c e live_socket =
      let q = record p { connections = update_at w n k (stepped w n socket_gone) p.connections } in
      subst (λ o. (on_effects w n (heard_from w n socket_gone o) q).view.overlay_hidden ≡ false)
        (sym e) (heard-over c q live_socket)

  -- The page without its tunnels: the overlay offers its action, and nothing listens to it.
  record IsStuck (p : Page w n) : Type 0 where
    wired : p.wired ≡ false
    overlay : p.view.overlay_hidden ≡ false
    action : p.view.action_hidden ≡ false
    connections : p.connections ≡ []
