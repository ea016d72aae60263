-- ===== src/Tests/Client.antt =====
-- Tickets of the command line client, links, and what the pages' texts are.
use open_console.Prelude.{
  ◌++◌, ◌<◌, All, Text, [], arith, codes, false, none, refl, some, suc, true, zero, ℕ, ◌∷◌, ◌≡◌,
}
use open_console.Web.Base32.{encode_base32}
use open_console.Web.Crypto.{viewer}
use open_console.Web.Footer.{Health, footer_version, healthy, mount_footer, not_ok, unreachable}
use open_console.Web.Percent.{encode_char}
use open_console.Web.Locator.{SessionLocator}
use open_console.Web.Tunnel.Address.{tunnel_url}
use open_console.Web.Page.Entry.{
  JoinForm, Landing, describe_ssh, show_docs, show_landing, incomplete, landing, route, session,
  submit, uncaught,
}
use open_console.Relay.Id.{new_id, new_token}
use open_console.Client.Ticket.{string}
use open_console.Client.Ticket.Pasted.{ticket_for}
use open_console.Client.Ticket.Issued.{submit-issued}
use open_console.Tests.Crypto.{repeat, ticket_key}

abbrev form : JoinForm
form = record { error_text = []; error_hidden = true; href = none }

small : (n : ℕ) → All (λ b. b < 256) (repeat 7 n)
small zero = tt
small (suc n) = (omega arith, small n)

made_id : new_id (some (repeat 3 16)) ≡ some (encode_base32 (repeat 3 16))
unfolding new_id
made_id = refl

made_token : new_token (some (repeat 5 32)) ≡ some (encode_base32 (repeat 5 32))
unfolding new_token
made_token = refl

submit-issued_example :
    (l : SessionLocator) × (l.session_id ≡ encode_base32 (repeat 3 16))
    × (l.token ≡ encode_base32 (repeat 5 32))
    × (l.key ≡ some ticket_key)
    × (l.key_kind ≡ some viewer)
    × ((path hash : Text) × ((submit (string (ticket_for l)) form).href
          ≡ some (path ++ b'#' ∷ hash))
        × ((submit (string (ticket_for l)) form).error_hidden ≡ true)
        × (route path (b'#' ∷ hash) ≡ session l))
submit-issued_example =
    submit-issued (repeat 3 16) (repeat 5 32) ticket_key viewer (encode_base32 (repeat 3 16))
      (encode_base32 (repeat 5 32)) form refl refl refl (small 32) made_id made_token

routes :
    (route (codes "/s/abc") (codes "#") ≡ incomplete)
    × (route (codes "/s/abc") (codes "#tok")
        ≡ session
            (record { session_id = codes "abc"; token = codes "tok"; key = none; key_kind = none }))
    × (route (codes "/s/abc") (codes "#%") ≡ uncaught)
    × (route (codes "/") (codes "#tok") ≡ landing)
    × (route (codes "/session") [] ≡ landing)
unfolding route
routes = (refl, refl, refl, refl, refl)

submissions :
    ((submit (codes "abc") form).error_hidden ≡ false)
    × ((submit (codes "abc") form).href ≡ none)
    × ((submit (codes "a b.tok") form).href ≡ some (codes "/s/a%20b#tok"))
unfolding submit encode_char
submissions = (refl, refl, refl)

abbrev health : Health
health = record {
  version = some (codes "dev");
  client_version = some (codes "v0.3.3");
  ssh_port = some 2222;
  ssh_host = none;
}

ssh_commands :
    (describe_ssh (healthy health) (codes "relay") ≡ some (codes "ssh -p 2222 <session-id>@relay"))
    × (describe_ssh
          (healthy (record health { ssh_port = some 22; ssh_host = some (codes "ssh.relay") }))
          (codes "relay")
        ≡ some (codes "ssh <session-id>@ssh.relay"))
    × (describe_ssh (healthy (record health { ssh_port = none })) (codes "relay") ≡ none)
unfolding describe_ssh
ssh_commands = (refl, refl, refl)

footers :
    (footer_version health ≡ codes "v0.3.3")
    × (footer_version (record health { client_version = some [] }) ≡ codes "dev")
    × (footer_version (record health { client_version = none; version = none }) ≡ [])
unfolding footer_version
footers = (refl, refl, refl)

foot_shown :
    mount_footer 2026
      (healthy health)
      (record { years = [] ∷ []; version = some []; version_hidden = true })
    ≡ record { years = codes "2026" ∷ []; version = some (codes "v0.3.3"); version_hidden = false }
unfolding mount_footer
foot_shown = refl

addresses :
    (tunnel_url (record { protocol = codes "https:"; host = codes "relay:8443" })
      ≡ codes "wss://relay:8443/api/v1/tunnel")
    × (tunnel_url (record { protocol = codes "http:"; host = codes "relay" })
        ≡ codes "ws://relay/api/v1/tunnel")
unfolding tunnel_url
addresses = (refl, refl)

abbrev bare : Landing
bare = record {
  origins = [] ∷ [] ∷ [];
  ssh_command = [];
  ssh_hidden = true;
  foot = record { years = [] ∷ []; version = none; version_hidden = true };
}

-- One of the two requests fails: the footer stays empty, and the ssh help is there.
landing_shown :
    show_landing (codes "https://relay") (codes "relay") 2026 unreachable (healthy health) bare
    ≡ record {
      origins = codes "https://relay" ∷ codes "https://relay" ∷ [];
      ssh_command = codes "ssh -p 2222 <session-id>@relay";
      ssh_hidden = false;
      foot = record { years = codes "2026" ∷ []; version = none; version_hidden = true };
    }
unfolding show_landing
landing_shown = refl

docs_shown :
    (show_docs (codes "https://relay") 2026 not_ok bare).origins
    ≡ codes "https://relay" ∷ codes "https://relay" ∷ []
unfolding show_docs
docs_shown = refl
