-- ===== src/Relay/Auth/Grants.antt =====
-- What internal/session/auth.go grants, to whom, and what it gives away to nobody.
use mathlib.Core.Option.{some-injective}
use open_console.Prelude.{
  ◌<◌, Bool, Option, Text, ap, arith, false, if◌then◌else◌, if-cases, ltb, ltb→lt, none, not, refl,
  some, subst, text_eq_iff, true, ℕ, ◌≡◌, ◌≢◌,
}
use open_console.Relay.Id.{valid_id}
use open_console.Relay.Manager.{
  Manager, Session, Result, ok, err, not_found, invalid_id, closed, too_many_sessions, cancelled,
  no_randomness, collision, get_read, get, answer, lookup, over,
}
use open_console.Relay.Auth.{
  Role, Access, Authenticated, role_host, role_guest, role_viewer, unknown, access_host,
  access_guest, access_viewer, granted, can_write, access_for, grant, decide, authenticate,
}

-- Which token entitles to what, by the role that is asked for.
pub data IsEntitled (s : Session) (token : Text) : Role → Access → Type 0 where
  as_host : token ≡ s.host_token → IsEntitled s token role_host access_host
  as_guest : token ≡ s.guest_token → IsEntitled s token role_guest access_guest
  as_viewer : token ≡ s.viewer_token → IsEntitled s token role_guest access_viewer
  watching_guest : token ≡ s.guest_token → IsEntitled s token role_viewer access_viewer
  watching : token ≡ s.viewer_token → IsEntitled s token role_viewer access_viewer

abbrev granted_session : Session → Authenticated → Session
granted_session s (granted t a) = t
granted_session s _ = s

abbrev ok_session : Session → Result Session → Session
ok_session s (ok t) = t
ok_session s (err e) = s

ok_injective : (s t : Session) → ok s ≡ ok t → s ≡ t
ok_injective s t e = ap (ok_session s) e

abbrev granted_access : Access → Authenticated → Access
granted_access b (granted t a) = a
granted_access b _ = b

-- The comparisons, as the equations that they test.
access_for-IsEntitled :
    (s : Session) (token : Text) (role : Role) (is_host is_guest is_viewer : Bool) (a : Access)
    → (is_host ≡ true → token ≡ s.host_token)
    → (is_guest ≡ true → token ≡ s.guest_token)
    → (is_viewer ≡ true → token ≡ s.viewer_token)
    → access_for role is_host is_guest is_viewer ≡ some a
    → IsEntitled s token role a
access_for-IsEntitled s token role_host true g v a eh eg ev e =
    subst (IsEntitled s token role_host) (some-injective _ _ e) (as_host (eh refl))
access_for-IsEntitled s token role_host false g v a eh eg ev e = absurd (ground arith)
access_for-IsEntitled s token role_guest h true v a eh eg ev e =
    subst (IsEntitled s token role_guest) (some-injective _ _ e) (as_guest (eg refl))
access_for-IsEntitled s token role_guest h false true a eh eg ev e =
    subst (IsEntitled s token role_guest) (some-injective _ _ e) (as_viewer (ev refl))
access_for-IsEntitled s token role_guest h false false a eh eg ev e = absurd (ground arith)
access_for-IsEntitled s token role_viewer h true v a eh eg ev e =
    subst (IsEntitled s token role_viewer) (some-injective _ _ e) (watching_guest (eg refl))
access_for-IsEntitled s token role_viewer h false true a eh eg ev e =
    subst (IsEntitled s token role_viewer) (some-injective _ _ e) (watching (ev refl))
access_for-IsEntitled s token role_viewer h false false a eh eg ev e = absurd (ground arith)
access_for-IsEntitled s token (unknown name) h g v a eh eg ev e = absurd (ground arith)

grant-IsEntitled :
    (s t : Session) (token : Text) (role : Role) (o : Option Access) (a : Access)
    → ((b : Access) → o ≡ some b → IsEntitled s token role b)
    → grant s o ≡ granted t a
    → (ok s ≡ ok t) × IsEntitled t token role a
grant-IsEntitled s t token role none a h e = absurd (ground arith)
grant-IsEntitled s t token role (some b) a h e =
    let same : s ≡ t = ap (granted_session s) e in
    let level : b ≡ a = ap (granted_access b) e in
    (
      ap ok same,
      subst (λ x. IsEntitled x token role a) same
          (subst (IsEntitled s token role) level (h b refl)),
    )

decide-IsEntitled :
    (role : Role) (token : Text) (r : Result Session) (t : Session) (a : Access)
    → decide role token r ≡ granted t a
    → (r ≡ ok t) × IsEntitled t token role a
decide-IsEntitled role token (err not_found) t a e = absurd (ground arith)
decide-IsEntitled role token (err invalid_id) t a e = absurd (ground arith)
decide-IsEntitled role token (err closed) t a e = absurd (ground arith)
decide-IsEntitled role token (err too_many_sessions) t a e = absurd (ground arith)
decide-IsEntitled role token (err cancelled) t a e = absurd (ground arith)
decide-IsEntitled role token (err no_randomness) t a e = absurd (ground arith)
decide-IsEntitled role token (err collision) t a e = absurd (ground arith)
decide-IsEntitled role token (ok s) t a e =
    grant-IsEntitled s t token role _ a
      (λ b.
        access_for-IsEntitled s token role _ _ _ b (text_eq_iff token s.host_token).0
          (text_eq_iff token s.guest_token).0 (text_eq_iff token s.viewer_token).0)
      e

answer-live :
    (now : ℕ) (o : Option Session) (t : Session)
    → answer now o ≡ ok t
    → (o ≡ some t) × (now < t.expires_at)
answer-live now none t e = absurd (ground arith)
answer-live now (some s) t e = alive (ltb now s.expires_at) refl e
  where
    alive :
        (b : Bool)
        → ltb now s.expires_at ≡ b
        → (if not b then err not_found else ok s) ≡ ok t
        → (some s ≡ some t) × (now < t.expires_at)
    alive true live_now k =
        let same : s ≡ t = ok_injective s t k in
        (ap some same, subst (λ x. now < x.expires_at) same (ltb→lt now s.expires_at live_now))
    alive false over k = absurd (ground arith)

read-live :
    (cancelled_context : Bool) (now : ℕ) (id : Text) (m : Manager) (t : Session)
    → get_read cancelled_context now id m ≡ ok t
    → (lookup id m.sessions ≡ some t) × (now < t.expires_at)
unfolding get_read
read-live true now id m t = λ e. absurd (ground arith)
read-live false now id m t =
    if-cases (λ r. r ≡ ok t → (lookup id m.sessions ≡ some t) × (now < t.expires_at))
      (not (valid_id id)) _ _ (λ malformed e. absurd (ground arith))
      (λ fine. answer-live now (lookup id m.sessions) t)

-- Access is granted only to a session that is stored under the identifier and has not expired, for
-- a token that is one of its three; the access is what that token is worth, and never more: only
-- the host's token opens a host tunnel, and the viewer's token never gives write access.
pub authenticate-IsEntitled :
    (cancelled_context : Bool) (now : ℕ) (id : Text) (role : Role) (token : Text) (m : Manager)
    (s : Session) (a : Access)
    → (authenticate cancelled_context now id role token m).1 ≡ granted s a
    → (lookup id m.sessions ≡ some s) × (now < s.expires_at) × IsEntitled s token role a
unfolding authenticate get
authenticate-IsEntitled cancelled_context now id role token m s a e =
    let got = decide-IsEntitled role token (get_read cancelled_context now id m) s a e in
    let held = read-live cancelled_context now id m s got.0 in (held.0, held.1, got.1)

entitled_read_only :
    (s : Session) (token : Text) (role : Role) (a : Access)
    → token ≢ s.host_token
    → token ≢ s.guest_token
    → IsEntitled s token role a
    → can_write a ≡ false
entitled_read_only s token _ _ h g (as_host e) = absurd (h e)
entitled_read_only s token _ _ h g (as_guest e) = absurd (g e)
entitled_read_only s token _ _ h g (as_viewer e) = refl
entitled_read_only s token _ _ h g (watching_guest e) = refl
entitled_read_only s token _ _ h g (watching e) = refl

-- Whoever holds neither the host's nor the guest's token of a session, as the holder of a viewer
-- link, is granted no access with which one may write, whatever role the connection asks for.
pub can_write-authenticate :
    (cancelled_context : Bool) (now : ℕ) (id : Text) (role : Role) (token : Text) (m : Manager)
    (s : Session) (a : Access)
    → (authenticate cancelled_context now id role token m).1 ≡ granted s a
    → token ≢ s.host_token
    → token ≢ s.guest_token
    → can_write a ≡ false
can_write-authenticate cancelled_context now id role token m s a e h g =
    entitled_read_only s token role a h g
      (authenticate-IsEntitled cancelled_context now id role token m s a e).2
