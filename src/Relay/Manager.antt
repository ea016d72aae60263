-- ===== src/Relay/Manager.antt =====
-- internal/session/manager.go and session.go: the store of sessions, which several goroutines use.
--
-- The map is an association list. A time is a number of nanoseconds; a TTL is positive after
-- NewManager. Each operation is one stretch under the mutex; Create is two of them with the
-- generation of the credentials between, and Get deletes an expired session in a second one.
pub mod Cases
pub mod Ceiling
pub mod Kept
pub mod Created
pub mod Down
use open_console.Prelude.{
  ◌&&◌, ◌+◌, Bool, Bytes, List, Option, Text, [], ◌>>=◌, false, if◌then◌else◌, leb, length, ltb,
  none, not, some, suc, text_eq, true, ◌||◌, ℕ, ◌∷◌,
}
use open_console.Relay.Id.{new_id, new_token, valid_id}

pub data Error : Type 0 where
  not_found invalid_id closed too_many_sessions : Error
  cancelled no_randomness collision : Error

pub data Result (A : Type 0) : Type 0 where
  ok : A → Result A
  err : Error → Result A

pub record Session : Type 0 where
  pub session_id : Text
  pub host_token : Text
  pub guest_token : Text
  pub viewer_token : Text
  pub created_at : ℕ
  pub expires_at : ℕ

-- `Expired`
abbrev pub expired : Session → ℕ → Bool
expired s now = not (ltb now s.expires_at)

pub record Options : Type 0 where
  pub ttl : ℕ
  pub max_sessions : ℕ

-- Durations and the cap are 0 here where the source's are not positive.
pub record Manager : Type 0 where
  pub ttl : ℕ
  pub max : ℕ
  pub sessions : List (Text × Session)
  pub closed : Bool

-- 30 minutes
abbrev pub default_ttl : ℕ
default_ttl = 1800000000000

abbrev pub new_manager : Options → Manager
new_manager opts = record {
  ttl = if leb opts.ttl 0 then default_ttl else opts.ttl;
  max = opts.max_sessions;
  sessions = [];
  closed = false;
}

-- `m.sessions[id]`
unfoldable pub lookup : Text → List (Text × Session) → Option Session
lookup id [] = none
lookup id ((key, s) ∷ rest) = if text_eq key id then some s else lookup id rest

-- `delete(m.sessions, id)`
unfoldable pub remove : Text → List (Text × Session) → List (Text × Session)
remove id [] = []
remove id ((key, s) ∷ rest) = if text_eq key id then remove id rest else (key, s) ∷ remove id rest

-- The loop of `sweepExpiredLocked`.
unfoldable pub live : ℕ → List (Text × Session) → List (Text × Session)
live now [] = []
live now ((key, s) ∷ rest) = if expired s now then live now rest else (key, s) ∷ live now rest

abbrev pub sweep : ℕ → Manager → Manager
sweep now m = record m { sessions = live now m.sessions }

abbrev pub over : Manager → Bool
over m = leb m.max (length m.sessions)

-- `m.max > 0 && len(m.sessions) >= m.max`
abbrev pub full : Manager → Bool
full m = ltb 0 m.max && over m

-- The first critical section of `Create`, and what it decides.
abbrev pub verdict : Manager → Bool → Option Error
verdict m still_full =
    if m.closed then some closed else if still_full then some too_many_sessions else none

unfoldable pub create_check : ℕ → Manager → Manager × Option Error
unfolding live
create_check now m =
    if full m
    then (sweep now m, verdict (sweep now m) (over (sweep now m)))
    else (m, verdict m false)

-- The last critical section of `Create`. An identifier that is taken is not given out again.
abbrev pub store_beside : Option Session → Session → Manager → Manager × Result Session
store_beside (some other) s m = (m, err collision)
store_beside none s m = (record m { sessions = (s.session_id, s) ∷ m.sessions }, ok s)

abbrev pub store : Session → Manager → Manager × Result Session
store s m = store_beside (lookup s.session_id m.sessions) s m

unfoldable pub create_commit : ℕ → Session → Manager → Manager × Result Session
unfolding live lookup
create_commit now s m =
    if m.closed
    then (m, err closed)
    else if full m
    then (if over (sweep now m)
        then (sweep now m, err too_many_sessions)
        else store s (sweep now m))
    else store s m

-- The random bytes that one call draws, each with the failure of crypto/rand.
pub record Draws : Type 0 where
  pub id : Option Bytes
  pub host : Option Bytes
  pub guest : Option Bytes
  pub viewer : Option Bytes

abbrev pub session_of :
    ℕ → ℕ → Option Text → Option Text → Option Text → Option Text → Option Session
session_of ttl now id host guest viewer = do
  session_id ← id
  host_token ← host
  guest_token ← guest
  viewer_token ← viewer
  some (record {
    session_id = session_id;
    host_token = host_token;
    guest_token = guest_token;
    viewer_token = viewer_token;
    created_at = now;
    expires_at = now + ttl;
  })

unfoldable pub new_session : ℕ → ℕ → Draws → Option Session
unfolding new_id new_token
new_session ttl now d =
    session_of ttl now (new_id d.id) (new_token d.host) (new_token d.guest) (new_token d.viewer)

abbrev pub commit_drawn : ℕ → Option Session → Manager → Manager × Result Session
commit_drawn now none m = (m, err no_randomness)
commit_drawn now (some s) m = create_commit now s m

abbrev pub create_checked : ℕ → Draws → Manager × Option Error → Manager × Result Session
create_checked now d (m, some e) = (m, err e)
create_checked now d (m, none) = commit_drawn now (new_session m.ttl now d) m

-- `Create` when nothing runs between its two critical sections, on a clock that does not move
-- meanwhile; `cancelled_context` is the test of `ctx.Err()`.
unfoldable pub create : Bool → ℕ → Draws → Manager → Manager × Result Session
unfolding create_check create_commit new_session
create cancelled_context now d m =
    if cancelled_context then (m, err cancelled) else create_checked now d (create_check now m)

abbrev pub answer : ℕ → Option Session → Result Session
answer now none = err not_found
answer now (some s) = if expired s now then err not_found else ok s

-- `Get` up to the end of its read lock, and whether it goes on to delete.
unfoldable pub get_read : Bool → ℕ → Text → Manager → Result Session
unfolding valid_id lookup
get_read cancelled_context now id m =
    if cancelled_context
    then err cancelled
    else if not (valid_id id)
    then err invalid_id
    else answer now (lookup id m.sessions)

unfoldable pub delete : Text → Manager → Manager
unfolding remove
delete id m = record m { sessions = remove id m.sessions }

abbrev pub delete_expired : ℕ → Text → Option Session → Manager → Manager
delete_expired now id none m = m
delete_expired now id (some s) m = if expired s now then delete id m else m

unfoldable pub get : Bool → ℕ → Text → Manager → Manager × Result Session
unfolding get_read delete
get cancelled_context now id m = (
  if cancelled_context || not (valid_id id)
      then m
      else delete_expired now id (lookup id m.sessions) m,
  get_read cancelled_context now id m,
)

-- The counter `n` of the loop.
abbrev pub count_expired : ℕ → List (Text × Session) → ℕ
count_expired now [] = 0
count_expired now ((key, s) ∷ rest) =
    if expired s now then suc (count_expired now rest) else count_expired now rest

-- `Len`
abbrev pub len : Manager → ℕ
len m = length m.sessions

unfoldable pub sweep_expired : ℕ → Manager → Manager × ℕ
unfolding live
sweep_expired now m = (sweep now m, count_expired now m.sessions)

-- `Close`
unfoldable pub close : Manager → Manager
close m = record m { closed = true; sessions = [] }

-- What may run next under the mutex, in any order: the goroutines of several calls interleave.
pub data Event : Type 0 where
  checked : ℕ → Event
  committed : ℕ → Session → Event
  deleted : Text → Event
  swept : ℕ → Event
  shut : Event

unfoldable pub step : Manager → Event → Manager
step m (checked now) = (create_check now m).0
step m (committed now s) = (create_commit now s m).0
step m (deleted id) = delete id m
step m (swept now) = (sweep_expired now m).0
step m shut = close m

unfoldable pub run : Manager → List Event → Manager
run m [] = m
run m (e ∷ es) = run (step m e) es
