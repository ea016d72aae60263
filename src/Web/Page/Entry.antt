-- ===== src/Web/Page/Entry.antt =====
-- The entry of web/src/main.ts: which view a location gets, and the landing page; and docs.ts.
use open_console.Prelude.{
  ◌++◌, ◌==◌, Bool, List, Option, Text, [], codes, false, if◌then◌else◌, map, none, some, true, ℕ,
}
use open_console.Web.Crypto.{WebCrypto}
use open_console.Web.Footer.{
  Answer, Foot, unreachable, not_ok, healthy, or_else, decimal, mount_footer,
}
use open_console.Web.Locator.{
  Parsed, SessionLocator, found, null, uri_error, parse_session_url, parse_ticket, session_url,
  strip_prefix,
}
use open_console.Web.Page.View.{Screen, blank, show_incomplete}
use open_console.Web.Page.Fit.{Floats, Proposal}
use open_console.Web.Page.{Page, show_session}

-- `window.location.pathname.startsWith('/s/')`
abbrev pub is_match : Option Text → Bool
is_match none = false
is_match (some rest) = true

unfoldable pub is_session_path : Text → Bool
is_session_path pathname = is_match (strip_prefix (codes "/s/") pathname)

-- What the script goes on with: `uncaught` is the URIError of parseSessionURL.
pub data Route : Type 0 where
  session : SessionLocator → Route
  incomplete landing uncaught : Route

abbrev pub route_of : Parsed → Text → Route
route_of (found l) pathname = session l
route_of null pathname = if is_session_path pathname then incomplete else landing
route_of uri_error pathname = uncaught

unfoldable pub route : Text → Text → Route
unfolding parse_session_url is_session_path
route pathname hash = route_of (parse_session_url pathname hash) pathname

-- The form of the landing page, and where the browser is sent.
pub record JoinForm : Type 0 where
  pub error_text : Text
  pub error_hidden : Bool
  pub href : Option Text

abbrev pub or_href : Option Text → Option Text → Option Text
or_href none before = before
or_href (some url) before = some url

-- The listener of `submit`. When sessionURL throws, the error was hidden before, and nothing else
-- happens.
abbrev pub submit_parsed : Option SessionLocator → JoinForm → JoinForm
submit_parsed none f = record f {
  error_text = codes "That does not look like a ticket. Expected session.token";
  error_hidden = false;
}
submit_parsed (some l) f = record f { error_hidden = true; href = or_href (session_url l) f.href }

unfoldable pub submit : Text → JoinForm → JoinForm
unfolding parse_ticket session_url
submit value f = submit_parsed (parse_ticket value) f

-- `describeSSH`: the command that is shown, if any.
abbrev pub port_option : ℕ → Text
port_option port = if port == 22 then [] else codes "-p " ++ (decimal port ++ codes " ")

abbrev pub ssh_to : Option ℕ → Option Text → Text → Option Text
ssh_to none host hostname = none
ssh_to (some port) host hostname =
    if port == 0
    then none
    else some
        (codes "ssh " ++ (port_option port ++ (codes "<session-id>@" ++ or_else host hostname)))

unfoldable pub describe_ssh : Answer → Text → Option Text
unfolding decimal
describe_ssh unreachable hostname = none
describe_ssh not_ok hostname = none
describe_ssh (healthy h) hostname = ssh_to h.ssh_port h.ssh_host hostname

-- What the landing page fills in: the nodes that name the relay, the ssh help and the footer.
pub record Landing : Type 0 where
  pub origins : List Text
  pub ssh_command : Text
  pub ssh_hidden : Bool
  pub foot : Foot

abbrev pub show_ssh : Option Text → Landing → Landing
show_ssh none v = v
show_ssh (some command) v = record v { ssh_command = command; ssh_hidden = false }

-- `showLanding`, up to the form, once /health has answered both requests.
unfoldable pub show_landing : Text → Text → ℕ → Answer → Answer → Landing → Landing
unfolding mount_footer describe_ssh
show_landing origin hostname year for_foot for_ssh v =
    show_ssh (describe_ssh for_ssh hostname) (record v {
      origins = map (λ node. origin) v.origins;
      foot = mount_footer year for_foot v.foot;
    })

-- docs.ts: the origins and the footer only.
unfoldable pub show_docs : Text → ℕ → Answer → Landing → Landing
unfolding mount_footer
show_docs origin year for_foot v = record v {
  origins = map (λ node. origin) v.origins;
  foot = mount_footer year for_foot v.foot;
}

-- The page that the script makes of its location.
module _ (w : WebCrypto) (n : Floats) where
  pub data Opened : Type 0 where
    terminal : Page w n → Opened
    fixed : Screen → Opened

  abbrev pub open_route : Route → Proposal n → Bool → Opened
  open_route (session l) window created = terminal (show_session w n window l created)
  open_route incomplete window created = fixed (show_incomplete blank)
  open_route landing window created = fixed (record blank { landing_hidden = false })
  open_route uncaught window created = fixed blank

  unfoldable pub open_page : Text → Text → Proposal n → Bool → Opened
  unfolding route show_session
  open_page pathname hash window created = open_route (route pathname hash) window created
