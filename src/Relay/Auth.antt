-- ===== src/Relay/Auth.antt =====
-- internal/session/auth.go: what a credential is worth.
pub mod Grants
pub mod Strangers
use open_console.Prelude.{
  Bool, Option, Text, false, if◌then◌else◌, none, some, text_eq, true, ◌||◌, ℕ,
}
use open_console.Relay.Manager.{
  Manager, Session, Error, Result, ok, err, not_found, invalid_id, get_read, get,
}

-- `protocol.Role`, a string that the client sends.
pub data Role : Type 0 where
  role_host role_guest role_viewer : Role
  unknown : Text → Role

pub data Access : Type 0 where
  access_host access_guest access_viewer : Access

abbrev pub can_write : Access → Bool
can_write access_host = true
can_write access_guest = true
can_write access_viewer = false

-- `Role`
abbrev pub role_of : Access → Role
role_of access_host = role_host
role_of access_viewer = role_viewer
role_of access_guest = role_guest

pub data Authenticated : Type 0 where
  granted : Session → Access → Authenticated
  unauthorized : Authenticated
  failed : Error → Authenticated

-- `constantTimeEqual`, less its timing.
abbrev pub constant_time_equal : Text → Text → Bool
constant_time_equal a b = text_eq a b

-- The `switch` on the requested role: which of the three comparisons held decides.
abbrev pub access_for : Role → Bool → Bool → Bool → Option Access
access_for role_host is_host is_guest is_viewer = if is_host then some access_host else none
access_for role_guest is_host is_guest is_viewer =
    if is_guest then some access_guest else if is_viewer then some access_viewer else none
access_for role_viewer is_host is_guest is_viewer =
    if is_guest || is_viewer then some access_viewer else none
access_for (unknown name) is_host is_guest is_viewer = none

abbrev pub grant : Session → Option Access → Authenticated
grant s none = unauthorized
grant s (some a) = granted s a

abbrev pub decide : Role → Text → Result Session → Authenticated
decide role token (err not_found) = unauthorized
decide role token (err invalid_id) = unauthorized
decide role token (err e) = failed e
decide role token (ok s) = grant s (
    access_for role (constant_time_equal token s.host_token)
      (constant_time_equal token s.guest_token) (constant_time_equal token s.viewer_token))

-- `Authenticate`; the manager is what the `Get` in it leaves.
unfoldable pub authenticate : Bool → ℕ → Text → Role → Text → Manager → Manager × Authenticated
unfolding get
authenticate cancelled_context now id role token m =
    let got = get cancelled_context now id m in (got.0, decide role token got.1)
