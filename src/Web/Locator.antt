-- ===== src/Web/Locator.antt =====
-- web/src/locator.ts: which session a page is for, and with what credential.
pub mod RoundTrip
pub mod Checks
use open_console.Prelude.{
  ◌++◌, ◌==◌, Bool, Bytes, List, Option, Text, [], codes, false, if◌then◌else◌, length, none, some,
  true, ◌||◌, ℕ, ◌∷◌,
}
use open_console.Web.Base32.{Decoded, decode_base32, encode_base32, trim}
use open_console.Web.Crypto.{KeyKind, root, viewer, key_size}
use open_console.Web.Percent.{decode_uri_component, encode_uri_component}

-- `SessionLocator`; the two optional fields are present together in what the parsers return.
pub record SessionLocator : Type 0 where
  pub session_id : Text
  pub token : Text
  pub key : Option Bytes
  pub key_kind : Option KeyKind

-- What the page sees: a URIError that nothing catches, null, or a locator.
pub data Parsed : Type 0 where
  uri_error null : Parsed
  found : SessionLocator → Parsed

abbrev pub strip_prefix : Text → Text → Option Text
strip_prefix [] s = some s
strip_prefix (p ∷ ps) [] = none
strip_prefix (p ∷ ps) (c ∷ cs) = if p == c then strip_prefix ps cs else none

-- The longest part with no slash, and what follows it.
unfoldable pub segment : Text → Text × Text
segment [] = ([], [])
segment (c ∷ cs) = if c == b'/' then ([], c ∷ cs) else (c ∷ (segment cs).0, (segment cs).1)

-- `\/?$` after the segment.
abbrev pub at_end : Text → Bool
at_end [] = true
at_end (c ∷ []) = c == b'/'
at_end (c ∷ d ∷ cs) = false

abbrev pub path_segment : Text × Text → Option Text
path_segment ([], rest) = none
path_segment (c ∷ cs, rest) = if at_end rest then some (c ∷ cs) else none

abbrev pub match_after : Option Text → Option Text
match_after none = none
match_after (some rest) = path_segment (segment rest)

-- `/^\/s\/([^/]+)\/?$/.exec(pathname)`, with the group that it captures.
unfoldable pub match_path : Text → Option Text
unfolding segment
match_path pathname = match_after (strip_prefix (codes "/s/") pathname)

-- `hash.replace(/^#/, '')`
abbrev pub without_hash : Text → Text
without_hash [] = []
without_hash (c ∷ cs) = if c == b'#' then cs else c ∷ cs

-- `splitOnce`
unfoldable pub split_once : Text → Text × Option Text
split_once [] = ([], none)
split_once (c ∷ cs) =
    if c == b'.' then ([], some cs) else (c ∷ (split_once cs).0, (split_once cs).1)

abbrev pub keyed : KeyKind → Decoded → Option (Bytes × KeyKind)
keyed kind (Decoded.bytes key) = if length key == key_size then some (key, kind) else none
keyed kind (Decoded.not_base32 ch) = none

-- `parseKeyField`
unfoldable pub parse_key_field : Text → Option (Bytes × KeyKind)
parse_key_field [] = none
parse_key_field (c ∷ cs) =
    if c == b'k'
    then keyed root (decode_base32 cs)
    else if c == b'v'
    then keyed viewer (decode_base32 cs)
    else none

abbrev pub with_key : Text → Text → Option (Bytes × KeyKind) → Option SessionLocator
with_key session_id token none = none
with_key session_id token (some (key, kind)) =
    some (record { session_id = session_id; token = token; key = some key; key_kind = some kind })

-- The common end of both parsers: the key field may be absent.
abbrev pub locate : Text → Text → Option Text → Option SessionLocator
locate session_id token none =
    some (record { session_id = session_id; token = token; key = none; key_kind = none })
locate session_id token (some key_field) = with_key session_id token (parse_key_field key_field)

abbrev pub or_null : Option SessionLocator → Parsed
or_null none = null
or_null (some l) = found l

abbrev pub is_nil : Text → Bool
is_nil [] = true
is_nil (c ∷ cs) = false

abbrev pub locate_fragment : Option Text → Text × Option Text → Parsed
locate_fragment none parts = uri_error
locate_fragment (some session_id) (token, key_field) =
    if is_nil token then null else or_null (locate session_id token key_field)

abbrev pub parse_fragment : Text → Option Text → Parsed
parse_fragment m none = uri_error
parse_fragment m (some decoded) =
    if is_nil (trim decoded)
    then null
    else locate_fragment (decode_uri_component m) (split_once (trim decoded))

abbrev pub parse_matched : Option Text → Text → Parsed
parse_matched none hash = null
parse_matched (some m) hash = parse_fragment m (decode_uri_component (without_hash hash))

unfoldable pub parse_session_url : Text → Text → Parsed
unfolding match_path decode_uri_component split_once parse_key_field decode_base32 trim
parse_session_url pathname hash = parse_matched (match_path pathname) hash

abbrev pub cons_head : ℕ → List Text → List Text
cons_head c [] = (c ∷ []) ∷ []
cons_head c (f ∷ fs) = (c ∷ f) ∷ fs

-- `split('.')`
unfoldable pub split_dots : Text → List Text
split_dots [] = [] ∷ []
split_dots (c ∷ cs) = if c == b'.' then [] ∷ split_dots cs else cons_head c (split_dots cs)

abbrev pub ticket_fields : Text → Text → Option Text → Option SessionLocator
ticket_fields session_id token key_field =
    if is_nil session_id || is_nil token then none else locate session_id token key_field

abbrev pub ticket_of : List Text → Option SessionLocator
ticket_of (session_id ∷ token ∷ []) = ticket_fields session_id token none
ticket_of (session_id ∷ token ∷ key_field ∷ []) = ticket_fields session_id token (some key_field)
ticket_of _ = none

unfoldable pub parse_ticket : Text → Option SessionLocator
unfolding split_dots parse_key_field decode_base32 trim
parse_ticket raw = ticket_of (split_dots (trim raw))

abbrev pub kind_letter : KeyKind → ℕ
kind_letter root = b'k'
kind_letter viewer = b'v'

abbrev pub fragment_of : Text → Option Bytes → Option KeyKind → Text
fragment_of token (some key) (some kind) = token ++ b'.' ∷ kind_letter kind ∷ encode_base32 key
fragment_of token _ _ = token

abbrev pub url_of : Option Text → Text → Option Text
url_of none fragment = none
url_of (some id) fragment = some (codes "/s/" ++ (id ++ b'#' ∷ fragment))

-- `sessionURL`; `none` is the URIError of encodeURIComponent.
unfoldable pub session_url : SessionLocator → Option Text
unfolding encode_uri_component encode_base32
session_url l = url_of (encode_uri_component l.session_id) (fragment_of l.token l.key l.key_kind)
