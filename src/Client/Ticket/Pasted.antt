-- ===== src/Client/Ticket/Pasted.antt =====
-- A ticket that the command line client writes, in the browser of web/src.
use open_console.Prelude.{
  ◌++◌, ◌<◌, ◌==◌, All, All-append, Bytes, Option, Text, [], ap, append_assoc, arith, false, length,
  ltb, none, not, refl, some, true, ℕ, ◌∙◌, ◌∷◌, ◌≡◌, ◌≢◌,
}
use open_console.Web.Base32.{encode_base32}
use open_console.Web.Base32.Letters.{letter, lower}
use open_console.Web.Base32.Tables.{each_letter_at, each_letter}
use open_console.Web.Base32.Output.{All-encode_base32}
use open_console.Web.Crypto.{KeyKind, root, viewer}
use open_console.Web.Percent.{unreserved}
use open_console.Web.Locator.{
  SessionLocator, kind_letter, fragment_of, parse_ticket, split_dots, ticket_of, session_url,
}
use open_console.Web.Locator.RoundTrip.{
  IsShareable, IsTokenChar, KeyFits, keyed-encoded, trim-free, fragment-IsFree, key-IsFree, IsFree,
  All-map, dot-IsFree, parse_session_url-session_url,
}
use open_console.Web.Page.Entry.{JoinForm, submit, submit_parsed, route, route_of, session, or_href}
use open_console.Client.Ticket.{Ticket, string, key_none}

split_dots-token : (t : Text) → All IsTokenChar t → split_dots t ≡ t ∷ []
unfolding split_dots
split_dots-token [] h = refl
split_dots-token (c ∷ s) h = rw (h.0.1, split_dots-token s h.1) refl

split_dots-dot :
    (t rest : Text) → All IsTokenChar t → split_dots (t ++ b'.' ∷ rest) ≡ t ∷ split_dots rest
unfolding split_dots
split_dots-dot [] rest h = refl
split_dots-dot (c ∷ s) rest h = rw (h.0.1, split_dots-dot s rest h.1) refl

no_dot_table : each_letter (λ d. not (lower (letter d) == b'.')) 32 ≡ true
unfolding each_letter letter
no_dot_table = refl

pub letter-IsTokenChar : (d : ℕ) → d < 32 → IsTokenChar (lower (letter d))
letter-IsTokenChar d h =
    (key-IsFree d h, let e = each_letter_at _ 32 d h no_dot_table in ground arith)

kind_letter-IsTokenChar : (kind : KeyKind) → IsTokenChar (kind_letter kind)
unfolding unreserved
kind_letter-IsTokenChar root = (refl, refl)
kind_letter-IsTokenChar viewer = (refl, refl)

-- The third field, as it is written.
abbrev key_field : KeyKind → Bytes → Text
key_field kind key = kind_letter kind ∷ encode_base32 key

key_field-tokens : (kind : KeyKind) (key : Bytes) → All IsTokenChar (key_field kind key)
key_field-tokens kind key =
    (kind_letter-IsTokenChar kind, All-encode_base32 IsTokenChar key letter-IsTokenChar)

-- A ticket's text, from a locator.
abbrev ticket_text : SessionLocator → Text
ticket_text l = l.session_id ++ b'.' ∷ fragment_of l.token l.key l.key_kind

fields-locate :
    (id token : Text) (key : Option Bytes) (kind : Option KeyKind)
    → All IsTokenChar token
    → id ≢ []
    → token ≢ []
    → KeyFits key kind
    → ticket_of (id ∷ split_dots (fragment_of token key kind))
      ≡ some (record { session_id = id; token = token; key = key; key_kind = kind })
fields-locate [] token key kind h n m k = absurd (n refl)
fields-locate (c ∷ cs) [] key kind h n m k = absurd (m refl)
fields-locate (c ∷ cs) (t ∷ ts) none none h n m k = rw (split_dots-token (t ∷ ts) h) refl
fields-locate (c ∷ cs) (t ∷ ts) (some key) (some kind) h n m k =
    rw
      (
        split_dots-dot (t ∷ ts) (key_field kind key) h,
        split_dots-token (key_field kind key) (key_field-tokens kind key),
        keyed-encoded kind key k.1 k.0,
      )
      refl
fields-locate (c ∷ cs) (t ∷ ts) (some key) none h n m k = elim k [ ]
fields-locate (c ∷ cs) (t ∷ ts) none (some kind) h n m k = elim k [ ]

parse_ticket-text :
    (l : SessionLocator)
    → IsShareable l
    → All IsTokenChar l.session_id
    → parse_ticket (ticket_text l) ≡ some l
unfolding parse_ticket
parse_ticket-text l h id_chars =
    let free =
      All-append IsFree l.session_id (b'.' ∷ fragment_of l.token l.key l.key_kind)
        (All-map IsTokenChar IsFree l.session_id (λ c x. x.0) id_chars)
        (dot-IsFree, fragment-IsFree l.token l.key l.key_kind h.token_chars) in
    ap (λ s. ticket_of (split_dots s)) (trim-free (ticket_text l) free)
    ∙ ap ticket_of (split_dots-dot l.session_id (fragment_of l.token l.key l.key_kind) id_chars)
    ∙ fields-locate l.session_id l.token l.key l.key_kind h.token_chars h.id_ne_nil h.token_ne_nil
        h.key_fits

-- The client's ticket for what a locator holds.
abbrev pub key_of : Option Bytes → Bytes
key_of none = []
key_of (some key) = key

abbrev pub kind_of : Option KeyKind → ℕ
kind_of none = key_none
kind_of (some kind) = kind_letter kind

abbrev pub ticket_for : SessionLocator → Ticket
ticket_for l = record {
  session_id = l.session_id;
  token = l.token;
  key = key_of l.key;
  key_kind = kind_of l.key_kind;
}

kind-ne-none : (kind : KeyKind) → kind_letter kind == key_none ≡ false
kind-ne-none root = refl
kind-ne-none viewer = refl

string-text :
    (id token : Text) (key : Option Bytes) (kind : Option KeyKind)
    → KeyFits key kind
    → string (ticket_for (record { session_id = id; token = token; key = key; key_kind = kind }))
      ≡ id ++ b'.' ∷ fragment_of token key kind
unfolding string
string-text id token none none k = refl
string-text id token (some key) (some kind) k =
    let long : ltb 0 (length key) ≡ true = ground (arith, k.0) in
    rw (long, kind-ne-none kind) (append_assoc id (b'.' ∷ token) _)
string-text id token (some key) none k = elim k [ ]
string-text id token none (some kind) k = elim k [ ]

submitted :
    (l : SessionLocator) (value url : Text) (f : JoinForm)
    → parse_ticket value ≡ some l
    → session_url l ≡ some url
    → ((submit value f).href ≡ some url) × ((submit value f).error_hidden ≡ true)
unfolding submit
submitted l value url f a b = (
  ap (λ x. (submit_parsed x f).href) a ∙ ap (λ x. or_href x f.href) b,
  ap (λ x. (submit_parsed x f).error_hidden) a,
)

-- The text of a ticket whose fields are as the relay and the client make them, entered on the
-- landing page, sends the browser to a path and fragment at which the page opens the very session
-- of the ticket, with its token and its key.
pub submit-string :
    (l : SessionLocator) (f : JoinForm)
    → IsShareable l
    → All IsTokenChar l.session_id
    → (path hash : Text) × ((submit (string (ticket_for l)) f).href ≡ some (path ++ b'#' ∷ hash))
      × ((submit (string (ticket_for l)) f).error_hidden ≡ true)
      × (route path (b'#' ∷ hash) ≡ session l)
unfolding route
submit-string l f h id_chars =
    let (path, hash, made, read) = parse_session_url-session_url l h in
    let parsed =
      ap parse_ticket (string-text l.session_id l.token l.key l.key_kind h.key_fits)
      ∙ parse_ticket-text l h id_chars in
    let done = submitted l (string (ticket_for l)) (path ++ b'#' ∷ hash) f parsed made in
    (path, hash, done.0, done.1, ap (λ x. route_of x path) read)
