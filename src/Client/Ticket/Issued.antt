-- ===== src/Client/Ticket/Issued.antt =====
-- From the relay's identifiers over the client's ticket to the browser's page.
use mathlib.Core.Option.{some-injective}
use open_console.Prelude.{
  ◌++◌, ◌<◌, All, Bytes, Text, [], ap, arith, length, refl, some, true, ℕ, ◌∷◌, ◌≡◌, ◌≢◌,
}
use open_console.Web.Base32.{encode_base32}
use open_console.Web.Base32.Output.{All-encode_base32, length-encode_base32}
use open_console.Web.Crypto.{KeyKind, key_size}
use open_console.Web.Utf8.{is_scalar}
use open_console.Web.Percent.{unreserved}
use open_console.Web.Locator.{SessionLocator}
use open_console.Web.Locator.RoundTrip.{IsShareable, IsTokenChar, All-map}
use open_console.Web.Page.Entry.{JoinForm, submit, route, session}
use open_console.Relay.Id.{new_id, new_token, id_bytes, token_bytes}
use open_console.Client.Ticket.{string}
use open_console.Client.Ticket.Pasted.{ticket_for, letter-IsTokenChar, submit-string}

token_char-scalar : (c : ℕ) → IsTokenChar c → is_scalar c ≡ true
unfolding unreserved
token_char-scalar c h = ground arith

encoded-ne-nil : (bs : Bytes) → 0 < length bs → encode_base32 bs ≢ []
encoded-ne-nil bs h e = absurd (omega (arith, length-encode_base32 bs, ap length e))

encoded-tokens : (bs : Bytes) → All IsTokenChar (encode_base32 bs)
encoded-tokens bs = All-encode_base32 IsTokenChar bs letter-IsTokenChar

abbrev pub issued : Bytes → Bytes → Bytes → KeyKind → SessionLocator
issued id token key kind = record {
  session_id = encode_base32 id;
  token = encode_base32 token;
  key = some key;
  key_kind = some kind;
}

issued-IsShareable :
    (id token key : Bytes) (kind : KeyKind)
    → 0 < length id
    → 0 < length token
    → length key ≡ key_size
    → All (λ b. b < 256) key
    → IsShareable (issued id token key kind)
issued-IsShareable id token key kind h k n small = record {
  id_scalar =
      All-map IsTokenChar (λ c. is_scalar c ≡ true) (encode_base32 id) token_char-scalar
        (encoded-tokens id);
  id_ne_nil = encoded-ne-nil id h;
  token_chars = encoded-tokens token;
  token_ne_nil = encoded-ne-nil token k;
  key_fits = (n, small);
}

-- What NewID and NewToken make of 16 and 32 random bytes, with a key of 32 bytes, the client writes
-- as a ticket that, entered on the landing page, sends the browser to a path and fragment at which
-- the page opens that session, with that token and that key.
pub submit-issued :
    (id_random token_random key : Bytes) (kind : KeyKind) (id token : Text) (f : JoinForm)
    → length id_random ≡ id_bytes
    → length token_random ≡ token_bytes
    → length key ≡ key_size
    → All (λ b. b < 256) key
    → new_id (some id_random) ≡ some id
    → new_token (some token_random) ≡ some token
    → (l : SessionLocator) × (l.session_id ≡ id)
      × (l.token ≡ token)
      × (l.key ≡ some key)
      × (l.key_kind ≡ some kind)
      × ((path hash : Text) × ((submit (string (ticket_for l)) f).href ≡ some (path ++ b'#' ∷ hash))
          × ((submit (string (ticket_for l)) f).error_hidden ≡ true)
          × (route path (b'#' ∷ hash) ≡ session l))
unfolding new_id new_token
submit-issued id_random token_random key kind id token f a b n small made_id made_token =
    let l = issued id_random token_random key kind in
    (
      l,
      some-injective _ _ made_id,
      some-injective _ _ made_token,
      refl,
      refl,
      submit-string l f
          (issued-IsShareable id_random token_random key kind (ground (arith, a))
            (ground (arith, b)) n small)
          (encoded-tokens id_random),
    )
