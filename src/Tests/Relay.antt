-- ===== src/Tests/Relay.antt =====
-- The relay's sessions at concrete inputs.
use open_console.Prelude.{
  ◌<◌, All, Bytes, List, Text, [], arith, codes, false, none, refl, some, subst, sym, text_eq,
  text_eq_iff, true, ◌∙◌, ◌∷◌, ◌≡◌, ◌≢◌, ◌≤◌,
}
use open_console.Web.Base32.{encode_base32}
use mathlib.Core.Option.{some-injective}
use open_console.Relay.Manager.{
  len, Manager, Session, Options, Draws, Event, create, create_commit, new_manager, get_read, run,
  close, checked, committed, deleted, swept, ok, err, closed, too_many_sessions, lookup,
  create_check,
}
use open_console.Relay.Manager.Ceiling.{len-run}
use open_console.Relay.Manager.Created.{get_read-create}
use open_console.Relay.Manager.Kept.{Spares}
use open_console.Relay.Manager.Down.{create-run-close}
use open_console.Relay.Auth.{
  authenticate, role_host, role_guest, role_viewer, access_host, access_guest, access_viewer,
  granted, unauthorized,
}
use open_console.Relay.Auth.Grants.{IsEntitled, authenticate-IsEntitled}
use open_console.Relay.Auth.Strangers.{IsStranger, authenticate-IsStranger, authenticate-create}
use open_console.Relay.Forward.{no_routes}
use open_console.Relay.Routing.{Frame, carried, from_guest, serve_as}
use open_console.Relay.Routing.ReadOnly.{IsKeptFromHost, viewer-IsKept}

abbrev sixteen : Bytes
sixteen = codes "0123456789abcdef"

abbrev opts : Options
opts = record { ttl = 100; max_sessions = 1 }

abbrev draws : Draws
draws = record {
  id = some sixteen;
  host = some (codes "h");
  guest = some (codes "g");
  viewer = some (codes "v");
}

abbrev made : Session
made = record {
  session_id = codes "gaytemzugu3doobzmfrggzdfmy";
  host_token = codes "na";
  guest_token = codes "m4";
  viewer_token = codes "oy";
  created_at = 5;
  expires_at = 105;
}

created : (create false 5 draws (new_manager opts)).1 ≡ ok made
unfolding create encode_base32
created = refl

abbrev started : Manager
started = (create false 5 draws (new_manager opts)).0

-- The second session does not fit while the first one lives, and fits afterwards.
refused : (create false 104 draws started).1 ≡ err too_many_sessions
unfolding create encode_base32
refused = refl

reclaimed : (create_check 105 started).1 ≡ none
unfolding create create_check encode_base32
reclaimed = refl

abbrev busy : List Event
busy = swept 50 ∷ checked 60 ∷ committed 70 made ∷ deleted (codes "x") ∷ []

len-run_example : len (run (new_manager opts) (committed 6 made ∷ busy)) ≤ 1
len-run_example = len-run opts (committed 6 made ∷ busy) (omega arith)

busy-Spares : All (Spares made.session_id made) busy
unfolding Spares
busy-Spares = (omega arith, (omega arith, (omega arith, (refl, tt))))

get_read-create_example :
    get_read false 90 made.session_id (run (create false 5 draws (new_manager opts)).0 busy)
    ≡ ok made
get_read-create_example =
    get_read-create 5 90 draws sixteen made (new_manager opts) busy refl refl created busy-Spares
      (omega arith)

authenticate-create_example :
    let n = run (create false 5 draws (new_manager opts)).0 busy in
    ((authenticate false 90 made.session_id role_host made.host_token n).1
      ≡ granted made access_host)
    × ((authenticate false 90 made.session_id role_guest made.guest_token n).1
        ≡ granted made access_guest)
    × ((authenticate false 90 made.session_id role_viewer made.viewer_token n).1
        ≡ granted made access_viewer)
authenticate-create_example =
    authenticate-create 5 90 draws sixteen made (new_manager opts) busy refl refl created
      busy-Spares (omega arith)

create-run-close_example :
    (len (run (close started) busy) ≡ 0)
    × ((create false 7 draws (run (close started) busy)).1 ≡ err closed)
    × ((create_commit 7 made (run (close started) busy)).1 ≡ err closed)
create-run-close_example = create-run-close 7 draws started busy made

-- A viewer's link, presented as an ordinary join.
viewer_joins :
    (authenticate false 90 made.session_id role_guest made.viewer_token started).1
    ≡ granted made access_viewer
unfolding authenticate create encode_base32
viewer_joins = refl

authenticate-IsEntitled_example :
    (lookup made.session_id started.sessions ≡ some made)
    × (90 < made.expires_at)
    × IsEntitled made made.viewer_token role_guest access_viewer
authenticate-IsEntitled_example =
    authenticate-IsEntitled false 90 made.session_id role_guest made.viewer_token started made
      access_viewer viewer_joins

differ : (a b : Text) → text_eq a b ≡ false → a ≢ b
differ a b h e = let same : text_eq a b ≡ true = (text_eq_iff a b).1 e in ground arith

held : lookup made.session_id started.sessions ≡ some made
unfolding create lookup encode_base32
held = refl

stranger :
    (s : Session) → lookup made.session_id started.sessions ≡ some s → IsStranger (codes "q") s
unfolding IsStranger
stranger s e =
    subst (IsStranger (codes "q")) (some-injective made s (sym held ∙ e))
      (differ _ _ refl, differ _ _ refl, differ _ _ refl)

authenticate-IsStranger_example :
    (authenticate false 90 made.session_id role_guest (codes "q") started).1 ≡ unauthorized
authenticate-IsStranger_example =
    authenticate-IsStranger 90 made.session_id role_guest (codes "q") started stranger

-- The viewer of that session sends terminal input.
abbrev keystroke : Frame
keystroke = record { type = 2; channel = 0; payload = carried (codes "x") }

viewer-IsKept_example :
    IsKeptFromHost no_routes
      (from_guest (λ b. none) (λ r. r) (serve_as 1 (some access_viewer)) keystroke no_routes)
viewer-IsKept_example =
    viewer-IsKept (λ b. none) (λ r. r) false 90 made.session_id role_guest made.viewer_token started
      made access_viewer 1 keystroke no_routes viewer_joins (differ _ _ refl) (differ _ _ refl)
