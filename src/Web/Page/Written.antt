-- ===== src/Web/Page/Written.antt =====
-- What the handlers of main.ts write to the terminal for one event of a tunnel.
use open_console.Prelude.{
  ◌++◌, Bool, Bytes, List, Option, Text, [], ap, append-nil, append_assoc, ap₂, false, get_elem?,
  if◌then◌else◌, refl, subst, sym, true, ◌||◌, ◌∙◌, ◌∷◌, ◌≡◌,
}
use open_console.Web.Crypto.{WebCrypto}
use open_console.Web.Utf8.{text_encode}
use open_console.Web.TextDecoder.{Decoder, decode, decode_all}
use open_console.Web.Tunnel.State.{
  Effect, Status, failed, connecting, connected, closed, status, shown, resized, access,
  sent_control, sent_data, socket_closed, fresh,
}
use open_console.Web.Tunnel.{connect}
use open_console.Web.Tunnel.Frames.{typed, closed_by_user}
use open_console.Web.Page.View.{Words, set_status}
use open_console.Web.Page.Fit.{Floats, refit}
use open_console.Web.Page.{
  Page, TermOp, wrote, grid, focused, cleared, Happening, on_socket, typed_text, binary_text,
  clicked, window_resized, unloading, on_effect, on_effects, happen, on_status, refit_page,
  resize_term, focus_when, on_data, heard_from, options_of, low_bytes,
}

-- What the handlers were given as terminal data.
abbrev pub payloads : List Effect → List Bytes
payloads [] = []
payloads (shown bytes ∷ es) = bytes ∷ payloads es
payloads (e ∷ es) = payloads es

abbrev pub written : List TermOp → Text
written [] = []
written (wrote t ∷ ops) = t ++ written ops
written (op ∷ ops) = written ops

written-append : (xs ys : List TermOp) → written (xs ++ ys) ≡ written xs ++ written ys
written-append [] ys = refl
written-append (wrote t ∷ xs) ys = rw (written-append xs ys, append_assoc) refl
written-append (grid c r ∷ xs) ys = written-append xs ys
written-append (cleared ∷ xs) ys = written-append xs ys
written-append (focused ∷ xs) ys = written-append xs ys

module _ (w : WebCrypto) (n : Floats) where
  -- Handed over in the order of the calls, whichever tunnel it comes from.
  abbrev pub heard_in : Page w n → Happening w n → List Effect
  heard_in p (on_socket k e) = heard_from w n e (get_elem? p.connections k)
  heard_in p (typed_text t) = heard_from w n (typed (text_encode t)) (get_elem? p.connections 0)
  heard_in p (binary_text t) = heard_from w n (typed (low_bytes t)) (get_elem? p.connections 0)
  heard_in p (clicked created) =
      if p.view.overlay_hidden || p.view.action_hidden
      then []
      else (connect w (options_of w n p) created fresh).log
  heard_in p (window_resized window) = []
  heard_in p unloading = heard_from w n closed_by_user (get_elem? p.connections 0)

  abbrev pub heard_while : Page w n → List (Happening w n) → List Effect
  heard_while p [] = []
  heard_while p (h ∷ hs) = (if p.wired then heard_in p h else []) ++ heard_while (happen w n p h) hs

  -- The page q is p after the chunks were written.
  pub record Wrote (p : Page w n) (chunks : List Bytes) (q : Page w n) : Type 0 where
    pub text : written q.term ≡ written p.term ++ (decode_all p.decoder chunks).1
    pub decoder : q.decoder ≡ (decode_all p.decoder chunks).0

  decode_all-append :
      (d : Decoder) (xs ys : List Bytes)
      → decode_all d (xs ++ ys) ≡ (
        (decode_all (decode_all d xs).0 ys).0,
        (decode_all d xs).1 ++ (decode_all (decode_all d xs).0 ys).1,
      )
  unfolding decode_all
  decode_all-append d [] ys = refl
  decode_all-append d (x ∷ xs) ys = rw (decode_all-append (decode d x).0 xs ys, append_assoc) refl

  pub payloads-append : (xs ys : List Effect) → payloads (xs ++ ys) ≡ payloads xs ++ payloads ys
  payloads-append [] ys = refl
  payloads-append (shown b ∷ xs) ys = ap (λ l. b ∷ l) (payloads-append xs ys)
  payloads-append (resized c r ∷ xs) ys = payloads-append xs ys
  payloads-append (status s d ∷ xs) ys = payloads-append xs ys
  payloads-append (access b ∷ xs) ys = payloads-append xs ys
  payloads-append (sent_control j ∷ xs) ys = payloads-append xs ys
  payloads-append (sent_data d ∷ xs) ys = payloads-append xs ys
  payloads-append (socket_closed ∷ xs) ys = payloads-append xs ys

  pub Wrote-trans :
      {p q r : Page w n} {xs ys : List Bytes} → Wrote p xs q → Wrote q ys r → Wrote p (xs ++ ys) r
  Wrote-trans {p} {q} {r} {xs} {ys} a b = record {
    text =
        b.text
        ∙ ap₂ (λ t d. t ++ (decode_all d ys).1) a.text a.decoder
        ∙ append_assoc (written p.term) (decode_all p.decoder xs).1
            (decode_all (decode_all p.decoder xs).0 ys).1
        ∙ ap (λ x. written p.term ++ x.1) (sym (decode_all-append p.decoder xs ys));
    decoder =
        b.decoder
        ∙ ap (λ d. (decode_all d ys).0) a.decoder
        ∙ ap (λ x. x.0) (sym (decode_all-append p.decoder xs ys));
  }

  -- Nothing that the terminal was called with is text, and the decoder was not called.
  pub Wrote-nil :
      (p q : Page w n) (op : List TermOp)
      → q.term ≡ p.term ++ op
      → written op ≡ []
      → q.decoder ≡ p.decoder
      → Wrote p [] q
  unfolding decode_all
  Wrote-nil p q op e quiet d = record {
    text = ap written e ∙ written-append p.term op ∙ ap (λ t. written p.term ++ t) quiet;
    decoder = d;
  }

  pub same-Wrote : (p q : Page w n) → q.term ≡ p.term → q.decoder ≡ p.decoder → Wrote p [] q
  same-Wrote p q e d = Wrote-nil p q [] (e ∙ sym (append-nil p.term)) refl d

  resize-Wrote : (b : Bool) (p : Page w n) → Wrote p [] (resize_term w n b p)
  resize-Wrote true p = Wrote-nil p _ (grid p.host_cols p.host_rows ∷ []) refl refl refl
  resize-Wrote false p = same-Wrote p p refl refl

  pub refit-Wrote : (p : Page w n) → Wrote p [] (refit_page w n p)
  unfolding refit_page
  refit-Wrote p =
      let r = refit n p.window p.host_cols p.host_rows p.font in
      let k = resize-Wrote r.1 (record p { font = r.0 }) in
      record { text = k.text; decoder = k.decoder }

  focus-Wrote : (s : Status) (p : Page w n) → Wrote p [] (focus_when w n s p)
  focus-Wrote connected p = Wrote-nil p _ (focused ∷ []) refl refl refl
  focus-Wrote connecting p = same-Wrote p p refl refl
  focus-Wrote closed p = same-Wrote p p refl refl
  focus-Wrote failed p = same-Wrote p p refl refl

  pub status-Wrote :
      (s : Status) (d : Option Words) (p : Page w n) → Wrote p [] (on_status w n s d p)
  unfolding on_status
  status-Wrote s d p =
      let k = focus-Wrote s (record p { view = set_status s d p.view }) in
      record { text = k.text; decoder = k.decoder }

  data-Wrote : (bytes : Bytes) (p : Page w n) → Wrote p (bytes ∷ []) (on_data w n bytes p)
  unfolding on_data decode_all
  data-Wrote bytes p = record {
    text = written-append p.term (wrote (decode p.decoder bytes).1 ∷ []);
    decoder = refl;
  }

  effect-Wrote : (e : Effect) (p : Page w n) → Wrote p (payloads (e ∷ [])) (on_effect w n e p)
  unfolding on_effect
  effect-Wrote (shown bytes) p = data-Wrote bytes p
  effect-Wrote (resized c r) p =
      let k = refit-Wrote (record p { host_cols = c; host_rows = r }) in
      record { text = k.text; decoder = k.decoder }
  effect-Wrote (status s r) p = status-Wrote s _ p
  effect-Wrote (access b) p = same-Wrote p _ refl refl
  effect-Wrote (sent_control j) p = same-Wrote p p refl refl
  effect-Wrote (sent_data d) p = same-Wrote p p refl refl
  effect-Wrote socket_closed p = same-Wrote p p refl refl

  pub effects-Wrote :
      (es : List Effect) (p : Page w n) → Wrote p (payloads es) (on_effects w n es p)
  unfolding on_effects
  effects-Wrote [] p = same-Wrote p p refl refl
  effects-Wrote (e ∷ es) p =
      subst (λ x. Wrote p x (on_effects w n es (on_effect w n e p)))
        (sym (payloads-append (e ∷ []) es))
        (Wrote-trans (effect-Wrote e p) (effects-Wrote es (on_effect w n e p)))
