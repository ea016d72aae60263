-- ===== src/Web/Page/View.antt =====
-- What the session view of web/src/main.ts shows beside the terminal.
use open_console.Prelude.{
  Bool, Option, Text, [], codes, false, if◌then◌else◌, none, not, some, true,
}
use open_console.Web.Crypto.{CryptoError}
use open_console.Web.Tunnel.State.{Status, Reason, connecting, connected, closed, failed}

-- The text of the overlay: fixed, or made from what went wrong.
pub data Words : Type 0 where
  words : Text → Words
  because : Reason → Words
  unusable_key : CryptoError → Words

-- The elements of the page that the code writes to. `dot` is the class of the status dot; `badge`
-- is the privacy label, hidden until a session is shown.
pub record Screen : Type 0 where
  pub session_hidden : Bool
  pub landing_hidden : Bool
  pub label : Text
  pub dot : Option Status
  pub status_text : Text
  pub overlay_hidden : Bool
  pub overlay_title : Text
  pub overlay_body : Words
  pub action_hidden : Bool
  pub access_text : Text
  pub access_hidden : Bool
  pub badge : Option Bool
  pub disable_stdin : Bool
  pub cursor_blink : Bool

-- The document as it is loaded, with a terminal that is not yet there.
abbrev pub blank : Screen
blank = record {
  session_hidden = true;
  landing_hidden = true;
  label = [];
  dot = none;
  status_text = [];
  overlay_hidden = true;
  overlay_title = [];
  overlay_body = words [];
  action_hidden = false;
  access_text = [];
  access_hidden = true;
  badge = none;
  disable_stdin = false;
  cursor_blink = true;
}

-- `detail ?? …`
abbrev pub detail_or : Option Words → Text → Words
detail_or none t = words t
detail_or (some w) t = w

unfoldable pub set_status : Status → Option Words → Screen → Screen
set_status connecting detail v = record v {
  dot = some connecting;
  status_text = codes "Connecting…";
  overlay_hidden = true;
}
set_status connected detail v = record v {
  dot = some connected;
  status_text = codes "Connected";
  overlay_hidden = true;
}
set_status closed detail v = record v {
  dot = some closed;
  status_text = codes "Session ended";
  overlay_title = codes "Session ended";
  overlay_body = detail_or detail (codes "The host ended the session.");
  action_hidden = true;
  overlay_hidden = false;
}
set_status failed detail v = record v {
  dot = some failed;
  status_text = codes "Disconnected";
  overlay_title = codes "Disconnected";
  overlay_body = detail_or detail (codes "The connection was lost.");
  action_hidden = false;
  overlay_hidden = false;
}

-- `onAccess`
abbrev pub set_access : Bool → Screen → Screen
set_access limited v = record v {
  disable_stdin = limited;
  cursor_blink = not limited;
  access_text = if limited then codes "read-only" else [];
  access_hidden = not limited;
}

-- The four writes to the privacy label: its text, class and title all say whether there are keys.
abbrev pub set_badge : Bool → Screen → Screen
set_badge encrypted v = record v { badge = some encrypted }

abbrev pub badge_text : Bool → Text
badge_text true = codes "encrypted"
badge_text false = codes "not encrypted"

-- A session's path without its fragment.
abbrev pub show_incomplete : Screen → Screen
show_incomplete v = record v {
  session_hidden = false;
  dot = some failed;
  status_text = codes "Incomplete link";
  overlay_hidden = false;
  overlay_title = codes "This link is incomplete";
  overlay_body =
      words (
        codes
          "The part after the # is missing, so there is no way to join. Ask for the full link.");
  action_hidden = true;
}
