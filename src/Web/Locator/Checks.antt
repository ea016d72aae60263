-- ===== src/Web/Locator/Checks.antt =====
-- What the parsers accept.
use open_console.Prelude.{
  ◌==◌, Bool, Bool-cases, Bytes, List, Option, Text, [], arith, false, if◌then◌else◌, inl, inr,
  length, none, refl, some, subst, true, ◌||◌, ◌∷◌, ◌≡◌, ◌≢◌,
}
use open_console.Web.Base32.{trim, Decoded, decode_base32}
use open_console.Web.Crypto.{KeyKind, key_size, root, viewer}
use open_console.Web.Percent.{decode_uri_component}
use open_console.Web.Locator.{
  SessionLocator, is_nil, keyed, locate, parse_key_field, found, locate_fragment, null, or_null,
  parse_fragment, ticket_of, with_key, match_path, parse_matched, parse_session_url, parse_ticket,
  split_dots, ticket_fields, without_hash,
}

-- A locator that a page may act on: it has a token, and its key is absent or has the right size.
abbrev pub KeyIsSized : Option Bytes → Option KeyKind → Type 0
KeyIsSized none none = Unit
KeyIsSized (some key) (some kind) = length key ≡ key_size
KeyIsSized _ _ = ⊥

pub record IsUsable (l : SessionLocator) : Type 0 where
  pub token_ne_nil : l.token ≢ []
  pub key_sized : KeyIsSized l.key l.key_kind

ne-nil : (t : Text) → is_nil t ≡ false → t ≢ []
ne-nil [] h e = cc
ne-nil (c ∷ cs) h e = cc

IsUsable-some : (x l : SessionLocator) → some x ≡ some l → IsUsable x → IsUsable l
IsUsable-some x l h u = subst IsUsable (let e : x ≡ l = cc h in e) u

keyed-sized :
    (kind : KeyKind) (d : Decoded) (key : Bytes) (k : KeyKind)
    → keyed kind d ≡ some (key, k)
    → length key ≡ key_size
keyed-sized kind (Decoded.bytes b) key k h = ground arith
keyed-sized kind (Decoded.not_base32 c) key k h = cc

parse_key_field-sized :
    (field : Text) (key : Bytes) (k : KeyKind)
    → parse_key_field field ≡ some (key, k)
    → length key ≡ key_size
unfolding parse_key_field
parse_key_field-sized [] key k h = cc
parse_key_field-sized (c ∷ cs) key k h = elim (Bool-cases (c == b'k')) [
  | inl is_root ↦ keyed-sized root (decode_base32 cs) key k (rw is_root at h)
  | inr other ↦ elim (Bool-cases (c == b'v')) [
    | inl is_viewer ↦ keyed-sized viewer (decode_base32 cs) key k (rw (other, is_viewer) at h)
    | inr neither ↦ absurd (cc (rw (other, neither) at h))
  ]
]

with_key-IsUsable :
    (id token : Text) (o : Option (Bytes × KeyKind)) (l : SessionLocator)
    → token ≢ []
    → ((key : Bytes) (k : KeyKind) → o ≡ some (key, k) → length key ≡ key_size)
    → with_key id token o ≡ some l
    → IsUsable l
with_key-IsUsable id token none l n sized h = cc
with_key-IsUsable id token (some (key, k)) l n sized h =
    IsUsable-some _ l h (record { token_ne_nil = n; key_sized = sized key k refl })

locate-IsUsable :
    (id token : Text) (field : Option Text) (l : SessionLocator)
    → token ≢ []
    → locate id token field ≡ some l
    → IsUsable l
locate-IsUsable id token none l n h =
    IsUsable-some _ l h (record { token_ne_nil = n; key_sized = tt })
locate-IsUsable id token (some field) l n h =
    with_key-IsUsable id token (parse_key_field field) l n (parse_key_field-sized field) h

or_null-found : (o : Option SessionLocator) (l : SessionLocator) → or_null o ≡ found l → o ≡ some l
or_null-found none l h = cc
or_null-found (some x) l h = cc

locate_fragment-IsUsable :
    (id : Option Text) (token : Text) (field : Option Text) (l : SessionLocator)
    → locate_fragment id (token, field) ≡ found l
    → IsUsable l
locate_fragment-IsUsable none token field l h = cc
locate_fragment-IsUsable (some id) token field l h = elim (Bool-cases (is_nil token)) [
  | inl empty ↦ absurd (cc (rw empty at h))
  | inr full ↦
      locate-IsUsable id token field l (ne-nil token full) (or_null-found _ l (rw full at h))
]

parse_matched-IsUsable :
    (m : Option Text) (decoded : Option Text) (l : SessionLocator)
    → elim m [ none ↦ null | some x ↦ parse_fragment x decoded ] ≡ found l
    → IsUsable l
parse_matched-IsUsable none decoded l h = cc
parse_matched-IsUsable (some x) none l h = cc
parse_matched-IsUsable (some x) (some d) l h = elim (Bool-cases (is_nil (trim d))) [
  | inl empty ↦ absurd (cc (rw empty at h))
  | inr full ↦ locate_fragment-IsUsable (decode_uri_component x) _ _ l (rw full at h)
]

ticket_fields-IsUsable :
    (id token : Text) (field : Option Text) (l : SessionLocator)
    → ticket_fields id token field ≡ some l
    → IsUsable l
ticket_fields-IsUsable id token field l h = by_tests (is_nil id) (is_nil token) refl h
  where
    by_tests :
        (a b : Bool)
        → is_nil token ≡ b
        → (if a || b then none else locate id token field) ≡ some l
        → IsUsable l
    by_tests true b e k = cc
    by_tests false true e k = cc
    by_tests false false e k = locate-IsUsable id token field l (ne-nil token e) k

ticket_of-IsUsable :
    (fields : List Text) (l : SessionLocator) → ticket_of fields ≡ some l → IsUsable l
ticket_of-IsUsable [] l h = cc
ticket_of-IsUsable (a ∷ []) l h = cc
ticket_of-IsUsable (a ∷ b ∷ []) l h = ticket_fields-IsUsable a b none l h
ticket_of-IsUsable (a ∷ b ∷ c ∷ []) l h = ticket_fields-IsUsable a b (some c) l h
ticket_of-IsUsable (a ∷ b ∷ c ∷ d ∷ e) l h = cc

parse_session_url-IsUsable :
    (path hash : Text) (l : SessionLocator) → parse_session_url path hash ≡ found l → IsUsable l
parse_session_url-IsUsable path hash l h =
    by_match (match_path path) (unfold parse_session_url in h)
  where
    by_match : (m : Option Text) → parse_matched m hash ≡ found l → IsUsable l
    by_match none k = cc
    by_match (some x) k =
        parse_matched-IsUsable (some x) (decode_uri_component (without_hash hash)) l k

-- Whichever way a locator was read, from a URL or from a ticket, it has a token, and its key is
-- absent or exactly 32 bytes with a kind.
pub parsed-IsUsable :
    (l : SessionLocator)
    → ((path hash : Text) → parse_session_url path hash ≡ found l → IsUsable l)
      × ((raw : Text) → parse_ticket raw ≡ some l → IsUsable l)
parsed-IsUsable l = (
  λ path hash. parse_session_url-IsUsable path hash l,
  λ raw h. ticket_of-IsUsable (split_dots (trim raw)) l (unfold parse_ticket in h),
)
