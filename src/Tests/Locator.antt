-- ===== src/Tests/Locator.antt =====
-- Reading URLs and tickets, at concrete texts.
use open_console.Prelude.{
  ◌++◌, ◌<◌, All, Bytes, Text, [], arith, codes, none, refl, some, suc, zero, ℕ, ◌∷◌, ◌≡◌,
}
use open_console.Web.Crypto.{viewer}
use open_console.Web.Locator.{
  SessionLocator, found, null, parse_session_url, parse_ticket, session_url,
}
use open_console.Web.Locator.RoundTrip.{IsShareable, IsTokenChar, parse_session_url-session_url}
use open_console.Web.Percent.{unreserved}

abbrev plain_locator : SessionLocator
plain_locator = record {
  session_id = codes "a b";
  token = codes "tok";
  key = none;
  key_kind = none;
}

read_plain : parse_session_url (codes "/s/a%20b/") (codes "#tok") ≡ found plain_locator
unfolding parse_session_url
read_plain = refl

read_nothing :
    (parse_session_url (codes "/s/") (codes "#tok") ≡ null)
    × (parse_session_url (codes "/s/a/b") (codes "#tok") ≡ null)
    × (parse_session_url (codes "/s/a") (codes "#") ≡ null)
    × (parse_session_url (codes "/s/a") (codes "#tok.x") ≡ null)
unfolding parse_session_url
read_nothing = (refl, refl, refl, refl)

read_ticket :
    parse_ticket (codes " a.tok ")
    ≡ some (record { session_id = codes "a"; token = codes "tok"; key = none; key_kind = none })
unfolding parse_ticket
read_ticket = refl

refused_tickets :
    (parse_ticket (codes "a") ≡ none)
    × (parse_ticket (codes "a.b.kaa") ≡ none)
    × (parse_ticket (codes "a.b.c.d") ≡ none)
    × (parse_ticket (codes ".b") ≡ none)
unfolding parse_ticket
refused_tickets = (refl, refl, refl, refl)

abbrev sevens : ℕ → Bytes
sevens zero = []
sevens (suc n) = 7 ∷ sevens n

abbrev keyed_locator : SessionLocator
keyed_locator = record {
  session_id = codes "a b";
  token = codes "tok";
  key = some (sevens 32);
  key_kind = some viewer;
}

small_sevens : (n : ℕ) → All (λ b. b < 256) (sevens n)
small_sevens zero = tt
small_sevens (suc n) = (omega arith, small_sevens n)

tok-IsTokenChar : All IsTokenChar (codes "tok")
unfolding unreserved
tok-IsTokenChar = ((refl, refl), ((refl, refl), ((refl, refl), tt)))

keyed_locator-IsShareable : IsShareable keyed_locator
keyed_locator-IsShareable = record {
  id_scalar = (refl, (refl, (refl, tt)));
  id_ne_nil = λ e. cc e;
  token_chars = tok-IsTokenChar;
  token_ne_nil = λ e. cc e;
  key_fits = (refl, small_sevens 32);
}

parse_session_url-session_url_example :
    (path fragment : Text) × (session_url keyed_locator ≡ some (path ++ b'#' ∷ fragment))
    × (parse_session_url path (b'#' ∷ fragment) ≡ found keyed_locator)
parse_session_url-session_url_example =
    parse_session_url-session_url keyed_locator keyed_locator-IsShareable
