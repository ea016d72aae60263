-- ===== src/Tests/Page.antt =====
-- The session page at concrete links, windows and runs.
use open_console.Prelude.{
  ◌*◌, ◌++◌, ◌/◌, ◌==◌, All, Bool, List, Text, [], arith, codes, false, get_elem?, leb, none, refl,
  some, true, ℕ, ◌∷◌, ◌≡◌, ◌≤◌,
}
use open_console.Web.Json.{Json, Number, nat, real, bool, end, field, obj, str}
use open_console.Web.Protocol.{encode_control, encode_data, open_frame}
use open_console.Web.Crypto
use open_console.Web.Crypto.{CryptoError, seal, open_from_host, viewer, Session, can_write}
use open_console.Web.Utf8.{text_encode}
use open_console.Web.TextDecoder.{decode_all, new_decoder}
use open_console.Web.TextDecoder.Chunks.{joined, decode_all-text_encode}
use open_console.Web.Locator.{SessionLocator}
use open_console.Web.Tunnel.State.{fresh, closing, Options, connected}
use open_console.Web.Tunnel.{connect, on_open, on_message, deliver, step}
use open_console.Web.Tunnel.Frames.{binary, delivered, message, socket_gone, socket_opened, text}
use open_console.Web.Page.Fit.{Floats, Proposal, refit}
use open_console.Web.Page.{
  Connection, Happening, Page, clicked, live, on_socket, show_session, on_tunnel, happen,
}
use open_console.Web.Page.Fonts.{IsFont, live-IsFont}
use open_console.Web.Page.Overlay.{IsCoherent, live-IsCoherent}
use open_console.Web.Page.Written.{heard_while, payloads, written}
use open_console.Web.Page.Terminal.{live-written}
use open_console.Web.Page.Reconnect.{on_tunnel-covers}
use open_console.Web.Tunnel.Sealed.{IsSealed}
use open_console.Web.Page.Traces.{badge-IsSealed}
use open_console.Web.Page.Faithful.{IsLinkKeys}
use open_console.Tests.Crypto.{toy, ticket_key, repeat}

-- Numbers in thousandths.
abbrev to_thousandths : Number → ℕ
to_thousandths (nat n) = n * 1000
to_thousandths (real r) = 0

thousandths_total : (a b : ℕ) → leb a b ≡ false → leb b a ≡ true
thousandths_total a b h = ground arith

thousandths_le : (m n : ℕ) → m ≤ n → leb (m * 1000) (n * 1000) ≡ true
thousandths_le m n h = ground arith

abbrev thousandths : Floats
thousandths = record {
  R = ℕ;
  of_nat = λ n. n * 1000;
  of_number = to_thousandths;
  mul = λ a b. a * b / 1000;
  div = λ a b. a * 1000 / b;
  floor = λ a. a / 1000 * 1000;
  le = leb;
  same = λ a b. a == b;
  le_total = thousandths_total;
  le-of_nat = thousandths_le;
}

-- A window of 1120 by 480, where a character of size 14 takes 7 by 16.
abbrev wide : Proposal thousandths
wide font = some (1120000 / (font / 2), 480000 / (font * 8 / 7))

abbrev hidden : Proposal thousandths
hidden font = none

-- 80 by 24 fits this window at size 17, and a window that is not laid out changes nothing.
fits :
    (refit thousandths wide (nat 80) (nat 24) 14000 ≡ (17000, true))
    × (refit thousandths wide (nat 300) (nat 10) 14000 ≡ (7000, true))
    × (refit thousandths hidden (nat 80) (nat 24) 14000 ≡ (14000, false))
unfolding refit
fits = (refl, refl, refl)

abbrev keyed : SessionLocator
keyed = record {
  session_id = codes "abc";
  token = codes "tok";
  key = some ticket_key;
  key_kind = some viewer;
}

abbrev clear : SessionLocator
clear = record keyed { key = none; key_kind = none }

abbrev ack : Bool → Json
ack encrypted =
    obj
      (field (codes "role") (str (codes "guest")) (field (codes "encrypted") (bool encrypted) end))

abbrev heard_ack : ℕ → Bool → Happening toy thousandths
heard_ack k encrypted =
    on_socket k (message (text (some (encode_control open_frame (some (ack encrypted)) 0))))

-- The tunnel opens, then an acknowledgement arrives and is handled.
abbrev attaching : ℕ → Bool → List (Happening toy thousandths)
attaching k encrypted =
    on_socket k socket_opened ∷ heard_ack k encrypted ∷ on_socket k delivered ∷ []

-- An attached page with keys.
abbrev keyed_page : Page toy thousandths
keyed_page = live toy thousandths (show_session toy thousandths wide keyed true) (attaching 0 true)

keyed_page_view :
    (keyed_page.view.badge ≡ some true)
    × (keyed_page.view.dot ≡ some connected)
    × (keyed_page.view.overlay_hidden ≡ true)
    × (keyed_page.view.access_text ≡ codes "read-only")
unfolding live show_session happen on_open on_message encode_control deliver can_write
keyed_page_view = (refl, refl, refl, refl)

badge-IsSealed_example :
    (s : Session toy) × IsLinkKeys toy thousandths keyed s
    × All (λ c. All (IsSealed toy s) c.tunnel.log) keyed_page.connections
badge-IsSealed_example =
    badge-IsSealed toy thousandths wide keyed true (attaching 0 true) keyed_page_view.0

live-IsFont_example : IsFont thousandths keyed_page.font
live-IsFont_example = live-IsFont toy thousandths wide keyed true (attaching 0 true)

live-IsCoherent_example : IsCoherent keyed_page.view
live-IsCoherent_example = live-IsCoherent toy thousandths wide keyed true (attaching 0 true)

-- The two bytes of an é, in two frames.
abbrev cut : List (Happening toy thousandths)
cut =
    attaching 0 false
    ++ (on_socket 0 (message (binary (encode_data (0xc3 ∷ []) 0)))
        ∷ on_socket 0 (message (binary (encode_data (0xa9 ∷ []) 0)))
        ∷ on_socket 0 delivered
        ∷ on_socket 0 delivered
        ∷ [])

cut_heard :
    joined
      (payloads (heard_while toy thousandths (show_session toy thousandths wide clear true) cut))
    ≡ text_encode (0xe9 ∷ [])
unfolding show_session step on_open happen on_message encode_control deliver encode_data
cut_heard = refl

live-written_example :
    written (live toy thousandths (show_session toy thousandths wide clear true) cut).term
    ≡ 0xe9 ∷ []
live-written_example =
    live-written toy thousandths wide clear true cut (0xe9 ∷ []) (refl, tt) cut_heard

-- A mark at the start is dropped, wherever the text is cut.
decode_all-text_encode_example :
    (decode_all new_decoder
      ((0xef ∷ []) ∷ (0xbb ∷ 0xbf ∷ b'a' ∷ 0xf0 ∷ []) ∷ (0x9f ∷ 0x98 ∷ 0x80 ∷ []) ∷ [])).1
    ≡ b'a' ∷ 0x1f600 ∷ []
decode_all-text_encode_example =
    decode_all-text_encode (0xfeff ∷ b'a' ∷ 0x1f600 ∷ []) _ (refl, (refl, (refl, tt)))
      (unfold text_encode in refl)

replaced_bytes :
    (decode_all new_decoder ((0xc3 ∷ []) ∷ (b'x' ∷ 0xff ∷ []) ∷ [])).1 ≡ 0xfffd ∷ b'x' ∷ 0xfffd ∷ []
unfolding decode_all
replaced_bytes = refl

-- The first tunnel fails on a message that is no frame; the user reconnects, and the second one is
-- connected when the first one's socket closes.
abbrev reconnected : Page toy thousandths
reconnected = live toy thousandths (show_session toy thousandths wide clear true) (
    on_socket 0 socket_opened
    ∷ on_socket 0 (message (text none))
    ∷ clicked true
    ∷ attaching 0 false)

abbrev old_options : Options toy
old_options = record {
  session_id = codes "abc";
  token = codes "tok";
  cols = nat 80;
  rows = nat 24;
  crypto = none;
}

abbrev old : Connection toy thousandths
old = record {
  options = old_options;
  tunnel =
      step toy old_options (step toy old_options (connect toy old_options true fresh) socket_opened)
        (message (text none));
}

reconnected_view :
    (reconnected.view.overlay_hidden ≡ true)
    × (reconnected.view.dot ≡ some connected)
    × (get_elem? reconnected.connections 1 ≡ some old)
    × (old.tunnel.ready ≡ closing)
unfolding live show_session happen on_open on_message encode_control deliver can_write
reconnected_view = (refl, refl, refl, refl)

on_tunnel-covers_example :
    (on_tunnel toy thousandths 1 socket_gone reconnected).view.overlay_hidden ≡ false
on_tunnel-covers_example =
    on_tunnel-covers toy thousandths reconnected 1 old reconnected_view.2
      (λ e. cc (reconnected_view.3, e))

-- A key of three bytes, which no link that was parsed holds.
abbrev odd : SessionLocator
odd = record keyed { key = some (repeat 7 3) }

abbrev path : Text
path = codes "/s/abc"

abbrev hash : Text
hash = codes "#tok"
