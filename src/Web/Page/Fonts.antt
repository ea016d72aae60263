-- ===== src/Web/Page/Fonts.antt =====
-- The font of web/src/main.ts stays in its range, whatever the host and the window do.
use open_console.Prelude.{
  Bool, Bool-cases, List, Option, arith, false, if-cases, inl, inr, none, some, suc, true, zero, ℕ,
  ◌≡◌,
}
use open_console.Web.Json.{Number}
use open_console.Web.Crypto.{WebCrypto}
use open_console.Web.Locator.{SessionLocator}
use open_console.Web.Tunnel.State.{
  Effect, Status, failed, connecting, connected, closed, status, shown, resized, access,
  sent_control, sent_data, socket_closed,
}
use open_console.Web.Page.View.{Words, set_status, set_badge}
use open_console.Web.Page.{
  Page, Happening, on_effect, on_status, refit_page, focus_when, resize_term, on_data, show_session,
  live,
}
use open_console.Web.Page.Invariant.{IsKept, session-IsKept}
use open_console.Web.Page.Fit.{
  Floats, Proposal, min_font, max_font, base_font, least, greatest, next_font, usable, pass, passes,
  refit,
}

module _ (n : Floats) where
  -- No smaller than the smallest font, no larger than the largest.
  abbrev pub IsFont : n.R → Type 0
  IsFont x = (n.le (n.of_nat min_font) x ≡ true) × (n.le x (n.of_nat max_font) ≡ true)

  least-le : (a b : n.R) → n.le a a ≡ true → n.le (least n a b) a ≡ true
  least-le a b self = elim (Bool-cases (n.le a b)) [
    | inl below ↦ rw below self
    | inr above ↦ rw above (n.le_total a b above)
  ]

  clamped :
      (x : n.R) → n.le x (n.of_nat max_font) ≡ true → IsFont (greatest n (n.of_nat min_font) x)
  clamped x small = elim (Bool-cases (n.le (n.of_nat min_font) x)) [
    | inl large ↦ rw large (large, small)
    | inr tiny ↦
        rw tiny
          (n.le-of_nat min_font min_font (omega arith), n.le-of_nat min_font max_font (omega arith))
  ]

  next_font-IsFont :
      (font : n.R) (shape : ℕ × ℕ) (c r : Number) → IsFont (next_font n font shape c r)
  unfolding next_font
  next_font-IsFont font (cols, rows) c r =
      clamped _ (least-le _ _ (n.le-of_nat max_font max_font (omega arith)))

  pass-IsFont :
      (rest : n.R → n.R × Bool) (font : n.R) (c r : Number) (shape : Option (ℕ × ℕ))
      → ((x : n.R) → IsFont x → IsFont (rest x).0)
      → IsFont font
      → IsFont (pass n rest font c r shape).0
  pass-IsFont rest font c r none k h = h
  pass-IsFont rest font c r (some shape) k h =
      if-cases {A = n.R × Bool} (λ x. IsFont x.0) (n.same (next_font n font shape c r) font) _ _
        (λ settled. h) (λ moved. k _ (next_font-IsFont font shape c r))

  passes-IsFont :
      (k : ℕ) (propose : Proposal n) (c r : Number) (font : n.R)
      → IsFont font
      → IsFont (passes n k propose c r font).0
  unfolding passes
  passes-IsFont zero propose c r font h = h
  passes-IsFont (suc k) propose c r font h =
      pass-IsFont (passes n k propose c r) font c r (usable n (propose font))
        (passes-IsFont k propose c r) h

  refit-IsFont :
      (propose : Proposal n) (c r : Number) (font : n.R)
      → IsFont font
      → IsFont (refit n propose c r font).0
  unfolding refit
  refit-IsFont propose c r font h = passes-IsFont 2 propose c r font h

  base-IsFont : IsFont (n.of_nat base_font)
  base-IsFont =
      (n.le-of_nat min_font base_font (omega arith), n.le-of_nat base_font max_font (omega arith))

module _ (w : WebCrypto) (n : Floats) where
  resize_term-font :
      (b : Bool) (p : Page w n) → IsFont n p.font → IsFont n (resize_term w n b p).font
  resize_term-font true p h = h
  resize_term-font false p h = h

  refit_page-font : (p : Page w n) → IsFont n p.font → IsFont n (refit_page w n p).font
  unfolding refit_page
  refit_page-font p h =
      let r = refit n p.window p.host_cols p.host_rows p.font in
      resize_term-font r.1 (record p { font = r.0 })
        (refit-IsFont n p.window p.host_cols p.host_rows p.font h)

  focus_when-font :
      (s : Status) (p : Page w n) → IsFont n p.font → IsFont n (focus_when w n s p).font
  focus_when-font connected p h = h
  focus_when-font connecting p h = h
  focus_when-font closed p h = h
  focus_when-font failed p h = h

  on_status-font :
      (s : Status) (d : Option Words) (p : Page w n)
      → IsFont n p.font
      → IsFont n (on_status w n s d p).font
  unfolding on_status
  on_status-font s d p h = focus_when-font s (record p { view = set_status s d p.view }) h

  on_effect-font : (e : Effect) (p : Page w n) → IsFont n p.font → IsFont n (on_effect w n e p).font
  unfolding on_effect on_data
  on_effect-font (shown bytes) p h = h
  on_effect-font (resized c r) p h = refit_page-font (record p { host_cols = c; host_rows = r }) h
  on_effect-font (status s r) p h = on_status-font s _ p h
  on_effect-font (access b) p h = h
  on_effect-font (sent_control j) p h = h
  on_effect-font (sent_data d) p h = h
  on_effect-font socket_closed p h = h

  font-IsKept : IsKept w n (λ p. IsFont n p.font)
  font-IsKept = record {
    effect = on_effect-font;
    status = on_status-font;
    window = λ window p h. refit_page-font (record p { window = window }) h;
    begin = λ b p h. refit_page-font (record p { view = set_badge b p.view; wired = true }) h;
    clear = λ p h. h;
    connections = λ cs p h. h;
    keys = λ s p h. h;
  }

  -- Whatever size the host announces and however the window changes, the font of the terminal is
  -- never smaller than the smallest font nor larger than the largest.
  pub live-IsFont :
      (window : Proposal n) (l : SessionLocator) (created : Bool) (hs : List (Happening w n))
      → IsFont n (live w n (show_session w n window l created) hs).font
  live-IsFont window l created hs =
      session-IsKept w n (λ p. IsFont n p.font) font-IsKept window l created hs (base-IsFont n)
