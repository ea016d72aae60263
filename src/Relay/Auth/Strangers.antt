-- ===== src/Relay/Auth/Strangers.antt =====
-- What internal/session/auth.go answers to a stranger, and to the holders of a new session's tokens.
use open_console.Prelude.{
  ◌+◌, ◌<◌, All, Bool-cases, Bytes, List, Option, Text, ap, false, if-cases, inl, inr, length, none,
  not, refl, some, text_eq, text_eq_iff, ℕ, ◌∙◌, ◌≡◌, ◌≢◌,
}
use open_console.Relay.Id.{id_bytes, valid_id}
use open_console.Relay.Manager.{
  Manager, Session, Event, Draws, ok, get_read, get, answer, expired, lookup, create, run,
}
use open_console.Relay.Manager.Kept.{Spares, text_eq_refl}
use open_console.Relay.Manager.Created.{get_read-create}
use open_console.Relay.Auth.{
  Role, role_host, role_guest, role_viewer, unknown, access_host, access_guest, access_viewer,
  granted, unauthorized, access_for, decide, authenticate,
}

-- The answer to a token that is none of the three of the session under the identifier.
text_eq-differs : (a b : Text) → a ≢ b → text_eq a b ≡ false
text_eq-differs a b h = elim (Bool-cases (text_eq a b)) [
  | inl same ↦ absurd (h ((text_eq_iff a b).0 same))
  | inr differs ↦ differs
]

access_for-none : (role : Role) → access_for role false false false ≡ none
access_for-none role_host = refl
access_for-none role_guest = refl
access_for-none role_viewer = refl
access_for-none (unknown name) = refl

-- None of the session's tokens.
unfoldable pub IsStranger : Text → Session → Type 0
IsStranger token s = (token ≢ s.host_token) × (token ≢ s.guest_token) × (token ≢ s.viewer_token)

decide-stranger :
    (role : Role) (token : Text) (s : Session)
    → IsStranger token s
    → decide role token (ok s) ≡ unauthorized
unfolding IsStranger
decide-stranger role token s h =
    rw
      (
        text_eq-differs token s.host_token h.0,
        text_eq-differs token s.guest_token h.1,
        text_eq-differs token s.viewer_token h.2,
        access_for-none role,
      )
      refl

answer-stranger :
    (now : ℕ) (role : Role) (token : Text) (o : Option Session)
    → ((s : Session) → o ≡ some s → IsStranger token s)
    → decide role token (answer now o) ≡ unauthorized
answer-stranger now role token none h = refl
answer-stranger now role token (some s) h =
    if-cases (λ r. decide role token r ≡ unauthorized) (expired s now) _ _ (λ over. refl)
      (λ lives. decide-stranger role token s (h s refl))

-- A stranger learns nothing: with a token that is none of those of the session under the
-- identifier, if there is one, the answer is ErrUnauthorized, whether the identifier is malformed,
-- unknown, expired or live, and whatever role is asked for.
pub authenticate-IsStranger :
    (now : ℕ) (id : Text) (role : Role) (token : Text) (m : Manager)
    → ((s : Session) → lookup id m.sessions ≡ some s → IsStranger token s)
    → (authenticate false now id role token m).1 ≡ unauthorized
unfolding authenticate get get_read
authenticate-IsStranger now id role token m h =
    if-cases (λ r. decide role token r ≡ unauthorized) (not (valid_id id)) _ _ (λ malformed. refl)
      (λ fine. answer-stranger now role token (lookup id m.sessions) h)

host_opens : (s : Session) → decide role_host s.host_token (ok s) ≡ granted s access_host
host_opens s = rw (text_eq_refl s.host_token) refl

guest_opens : (s : Session) → decide role_guest s.guest_token (ok s) ≡ granted s access_guest
guest_opens s = rw (text_eq_refl s.guest_token) refl

viewer_opens : (s : Session) → decide role_viewer s.viewer_token (ok s) ≡ granted s access_viewer
viewer_opens s = elim (Bool-cases (text_eq s.viewer_token s.guest_token)) [
  | inl same ↦ rw same refl
  | inr differs ↦ rw (differs, text_eq_refl s.viewer_token) refl
]

-- The three tokens of a session that Create answered with, from sixteen random bytes for its
-- identifier, open it for host, guest and viewer until its TTL has passed, whatever critical
-- sections run meanwhile that neither read a clock past the expiry, delete the identifier nor close
-- the manager.
pub authenticate-create :
    (now later : ℕ) (d : Draws) (b : Bytes) (s : Session) (m : Manager) (es : List Event)
    → d.id ≡ some b
    → length b ≡ id_bytes
    → (create false now d m).1 ≡ ok s
    → All (Spares s.session_id s) es
    → later < now + m.ttl
    → let n = run (create false now d m).0 es in
      ((authenticate false later s.session_id role_host s.host_token n).1 ≡ granted s access_host)
      × ((authenticate false later s.session_id role_guest s.guest_token n).1
          ≡ granted s access_guest)
      × ((authenticate false later s.session_id role_viewer s.viewer_token n).1
          ≡ granted s access_viewer)
unfolding authenticate get
authenticate-create now later d b s m es e n k p h =
    let found = get_read-create now later d b s m es e n k p h in
    (
      ap (decide role_host s.host_token) found ∙ host_opens s,
      ap (decide role_guest s.guest_token) found ∙ guest_opens s,
      ap (decide role_viewer s.viewer_token) found ∙ viewer_opens s,
    )
