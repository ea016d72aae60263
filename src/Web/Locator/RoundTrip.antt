-- ===== src/Web/Locator/RoundTrip.antt =====
-- The page that sessionURL leads to finds the locator that the URL was made from.
use open_console.Prelude.{
  ◌++◌, ◌<◌, ◌==◌, All, All-append, Bytes, List, Option, Text, [], ap, arith, codes, false, length,
  none, refl, some, subst, true, ℕ, ◌∙◌, ◌∷◌, ◌≡◌, ◌≢◌,
}
use open_console.Web.Base32.{is_space, trim, encode_base32}
use open_console.Web.Base32.Letters.{letter, lower, trim_start, trim_end, keep_end}
use open_console.Web.Base32.Tables.{each_letter_at, each_letter}
use open_console.Web.Base32.RoundTrip.{decode_base32-encode_base32}
use open_console.Web.Base32.Output.{All-encode_base32}
use open_console.Web.Crypto.{KeyKind, root, viewer, key_size}
use open_console.Web.Utf8.{is_scalar}
use open_console.Web.Percent.{unreserved, decode_uri_component, encode_uri_component}
use open_console.Web.Percent.RoundTrip.{decode-plain, decode-encode}
use open_console.Web.Percent.Encoded.{encode_total, HasNoSlash}
use open_console.Web.Locator.{
  SessionLocator, kind_letter, parse_key_field, segment, split_once, found, fragment_of,
  locate_fragment, is_nil, match_path, parse_fragment, parse_matched, parse_session_url,
  session_url, url_of,
}

unreserved_table : each_letter (λ d. unreserved (lower (letter d))) 32 ≡ true
unfolding each_letter unreserved letter
unreserved_table = refl

abbrev pub IsFree : ℕ → Type 0
IsFree c = unreserved c ≡ true

not_percent : (c : ℕ) → IsFree c → c == b'%' ≡ false
unfolding unreserved
not_percent c h = ground arith

not_space : (c : ℕ) → IsFree c → is_space c ≡ false
unfolding unreserved is_space
not_space c h = ground arith

trim_end-free : (s : Text) → All IsFree s → trim_end s ≡ s
unfolding trim_end
trim_end-free [] h = refl
trim_end-free (c ∷ []) h = rw (not_space c h.0)
trim_end-free (c ∷ d ∷ s) h = ap (keep_end c) (trim_end-free (d ∷ s) h.1)

pub trim-free : (s : Text) → All IsFree s → trim s ≡ s
unfolding trim trim_start
trim-free [] h = trim_end-free [] tt
trim-free (c ∷ s) h = rw (not_space c h.0) (trim_end-free (c ∷ s) h)

pub All-map {ℓ} :
    {A : Type ℓ} (P Q : A → Type 0) (xs : List A) → ((x : A) → P x → Q x) → All P xs → All Q xs
All-map P Q [] f h = tt
All-map P Q (x ∷ xs) f h = (f x h.0, All-map P Q xs f h.1)

segment-HasNoSlash : (s : Text) → HasNoSlash s → segment s ≡ (s, [])
unfolding segment
segment-HasNoSlash [] h = refl
segment-HasNoSlash (c ∷ s) h = rw (h.0, segment-HasNoSlash s h.1)

-- The characters of a token: none that a URL escapes, and no dot.
abbrev pub IsTokenChar : ℕ → Type 0
IsTokenChar c = (unreserved c ≡ true) × (c == b'.' ≡ false)

split_once-token : (token : Text) → All IsTokenChar token → split_once token ≡ (token, none)
unfolding split_once
split_once-token [] h = refl
split_once-token (c ∷ s) h = rw (h.0.1, split_once-token s h.1)

split_once-dot :
    (token rest : Text)
    → All IsTokenChar token
    → split_once (token ++ b'.' ∷ rest) ≡ (token, some rest)
unfolding split_once
split_once-dot [] rest h = refl
split_once-dot (c ∷ s) rest h = rw (h.0.1, split_once-dot s rest h.1)

pub keyed-encoded :
    (kind : KeyKind) (key : Bytes)
    → All (λ b. b < 256) key
    → length key ≡ key_size
    → parse_key_field (kind_letter kind ∷ encode_base32 key) ≡ some (key, kind)
unfolding parse_key_field
keyed-encoded root key h n = rw (decode_base32-encode_base32 key h, n)
keyed-encoded viewer key h n = rw (decode_base32-encode_base32 key h, n)

-- A locator's key: absent, or 32 bytes of one of the two kinds.
abbrev pub KeyFits : Option Bytes → Option KeyKind → Type 0
KeyFits none none = Unit
KeyFits (some key) (some kind) = (length key ≡ key_size) × All (λ b. b < 256) key
KeyFits _ _ = ⊥

pub record IsShareable (l : SessionLocator) : Type 0 where
  pub id_scalar : All (λ c. is_scalar c ≡ true) l.session_id
  pub id_ne_nil : l.session_id ≢ []
  pub token_chars : All IsTokenChar l.token
  pub token_ne_nil : l.token ≢ []
  pub key_fits : KeyFits l.key l.key_kind

pub key-IsFree : (d : ℕ) → d < 32 → IsFree (lower (letter d))
key-IsFree d h = each_letter_at _ 32 d h unreserved_table

kind_letter-IsFree : (kind : KeyKind) → IsFree (kind_letter kind)
unfolding unreserved
kind_letter-IsFree root = refl
kind_letter-IsFree viewer = refl

pub dot-IsFree : IsFree b'.'
unfolding unreserved
dot-IsFree = refl

pub fragment-IsFree :
    (token : Text) (key : Option Bytes) (kind : Option KeyKind)
    → All IsTokenChar token
    → All IsFree (fragment_of token key kind)
fragment-IsFree token key kind h = by_key key kind (All-map IsTokenChar IsFree token (λ c x. x.0) h)
  where
    by_key :
        (key : Option Bytes) (kind : Option KeyKind)
        → All IsFree token
        → All IsFree (fragment_of token key kind)
    by_key (some key) (some kind) t =
        All-append IsFree token (b'.' ∷ kind_letter kind ∷ encode_base32 key) t
          (dot-IsFree, (kind_letter-IsFree kind, All-encode_base32 IsFree key key-IsFree))
    by_key (some key) none t = t
    by_key none kind t = t

-- What the parser makes of the trimmed and decoded fragment.
locate-fragment_of :
    (id token : Text) (key : Option Bytes) (kind : Option KeyKind)
    → All IsTokenChar token
    → token ≢ []
    → KeyFits key kind
    → locate_fragment (some id) (split_once (fragment_of token key kind))
      ≡ found (record { session_id = id; token = token; key = key; key_kind = kind })
locate-fragment_of id token none none h n k = rw (split_once-token token h) (with_token token n)
  where
    with_token :
        (t : Text)
        → t ≢ []
        → locate_fragment (some id) (t, none)
          ≡ found (record { session_id = id; token = t; key = none; key_kind = none })
    with_token [] n = absurd (n refl)
    with_token (c ∷ cs) n = refl
locate-fragment_of id token (some key) (some kind) h n k =
    rw (split_once-dot token (kind_letter kind ∷ encode_base32 key) h) (with_token token n)
  where
    with_token :
        (t : Text)
        → t ≢ []
        → locate_fragment (some id) (t, some (kind_letter kind ∷ encode_base32 key))
          ≡ found (record { session_id = id; token = t; key = some key; key_kind = some kind })
    with_token [] n = absurd (n refl)
    with_token (c ∷ cs) n = rw (keyed-encoded kind key k.1 k.0)
locate-fragment_of id token none (some kind) h n k = absurd k
locate-fragment_of id token (some key) none h n k = absurd k

match_path-segment :
    (id : Text) → HasNoSlash id → id ≢ [] → match_path (codes "/s/" ++ id) ≡ some id
unfolding match_path
match_path-segment [] h n = absurd (n refl)
match_path-segment (c ∷ cs) h n = rw (segment-HasNoSlash (c ∷ cs) h)

encoded-ne-nil : (s t : Text) → encode_uri_component s ≡ some t → s ≢ [] → t ≢ []
encoded-ne-nil s t h n e =
    let empty : decode_uri_component [] ≡ some s =
      subst (λ x. decode_uri_component x ≡ some s) e (decode-encode s t h) in
    n (cc (empty, decode-plain [] tt))

fragment-ne-nil :
    (token : Text) (key : Option Bytes) (kind : Option KeyKind)
    → token ≢ []
    → is_nil (fragment_of token key kind) ≡ false
fragment-ne-nil [] key kind n = absurd (n refl)
fragment-ne-nil (c ∷ cs) (some key) (some kind) n = refl
fragment-ne-nil (c ∷ cs) (some key) none n = refl
fragment-ne-nil (c ∷ cs) none kind n = refl

parse_fragment-decoded :
    (id m fragment : Text)
    → decode_uri_component m ≡ some id
    → All IsFree fragment
    → is_nil fragment ≡ false
    → parse_fragment m (decode_uri_component fragment)
      ≡ locate_fragment (some id) (split_once fragment)
parse_fragment-decoded id m fragment d f n = rw (
  decode-plain fragment (All-map IsFree (λ c. c == b'%' ≡ false) fragment not_percent f),
  trim-free fragment f,
  n,
  d,
)

pub parse_session_url-parts :
    (path fragment m : Text)
    → match_path path ≡ some m
    → parse_session_url path (b'#' ∷ fragment) ≡ parse_fragment m (decode_uri_component fragment)
unfolding parse_session_url
parse_session_url-parts path fragment m h = ap (λ x. parse_matched x (b'#' ∷ fragment)) h

session_url-parts :
    (l : SessionLocator) (id : Text)
    → encode_uri_component l.session_id ≡ some id
    → session_url l ≡ some ((codes "/s/" ++ id) ++ b'#' ∷ fragment_of l.token l.key l.key_kind)
unfolding session_url
session_url-parts l id h = ap (λ x. url_of x (fragment_of l.token l.key l.key_kind)) h

-- A session ID of characters, a token that a URL can hold as it is, and a key of 32 bytes or none:
-- then sessionURL returns a path and a fragment, from which the page reads the same locator.
pub parse_session_url-session_url :
    (l : SessionLocator)
    → IsShareable l
    → (path fragment : Text) × (session_url l ≡ some (path ++ b'#' ∷ fragment))
      × (parse_session_url path (b'#' ∷ fragment) ≡ found l)
parse_session_url-session_url l h =
    let (id, coded, clean) = encode_total l.session_id h.id_scalar in
    let fragment = fragment_of l.token l.key l.key_kind in
    let matched = match_path-segment id clean (encoded-ne-nil l.session_id id coded h.id_ne_nil) in
    (
      codes "/s/" ++ id,
      fragment,
      session_url-parts l id coded,
      parse_session_url-parts (codes "/s/" ++ id) fragment id matched
          ∙ parse_fragment-decoded l.session_id id fragment (decode-encode l.session_id id coded)
              (fragment-IsFree l.token l.key l.key_kind h.token_chars)
              (fragment-ne-nil l.token l.key l.key_kind h.token_ne_nil)
          ∙ locate-fragment_of l.session_id l.token l.key l.key_kind h.token_chars h.token_ne_nil
              h.key_fits,
    )
