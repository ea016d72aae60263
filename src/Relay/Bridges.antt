-- ===== src/Relay/Bridges.antt =====
-- internal/session/bridges.go: which bridge is live for a session.
--
-- A bridge is a number in place of its pointer, and each new one gets the next number. Each
-- operation is one stretch under the mutex; Close of a bridge calls `remove`.
pub mod Registered
use open_console.Prelude.{
  ◌==◌, Bool, List, Option, Text, [], false, if◌then◌else◌, length, none, some, suc, text_eq, ℕ,
  ◌∷◌,
}

pub record Bridges : Type 0 where
  pub entries : List (Text × ℕ)
  pub made : ℕ

abbrev pub new_bridges : Bridges
new_bridges = record { entries = []; made = 0 }

-- `r.m[id]`
unfoldable pub entry : Text → List (Text × ℕ) → Option ℕ
entry id [] = none
entry id ((key, b) ∷ rest) = if text_eq key id then some b else entry id rest

-- `delete(r.m, id)`
unfoldable pub without : Text → List (Text × ℕ) → List (Text × ℕ)
without id [] = []
without id ((key, b) ∷ rest) =
    if text_eq key id then without id rest else (key, b) ∷ without id rest

-- `Open`: `none` is ErrHostAlreadyAttached.
abbrev pub open_beside : Option ℕ → Text → Bridges → Bridges × Option ℕ
open_beside (some b) id r = (r, none)
open_beside none id r =
    (record { entries = (id, r.made) ∷ r.entries; made = suc r.made }, some r.made)

unfoldable pub open_bridge : Text → Bridges → Bridges × Option ℕ
unfolding entry
open_bridge id r = open_beside (entry id r.entries) id r

-- `Get`
unfoldable pub get_bridge : Text → Bridges → Option ℕ
get_bridge id r = entry id r.entries

-- `cur, ok := r.m[id]; ok && cur == b`
abbrev pub is_current : Option ℕ → ℕ → Bool
is_current none b = false
is_current (some current) b = current == b

unfoldable pub remove_bridge : Text → ℕ → Bridges → Bridges
unfolding entry without
remove_bridge id b r =
    if is_current (entry id r.entries) b then record r { entries = without id r.entries } else r

-- `Len`
abbrev pub len_bridges : Bridges → ℕ
len_bridges r = length r.entries

-- `CloseAll`: Close of each bridge that was there, one after the other. `others` is what goes on
-- before each; a bridge that was closed by then removes nothing.
unfoldable pub close_all : (Bridges → Bridges) → List (Text × ℕ) → Bridges → Bridges
unfolding remove_bridge
close_all others [] r = r
close_all others ((id, b) ∷ rest) r = close_all others rest (remove_bridge id b (others r))

pub data Event : Type 0 where
  opens : Text → Event
  removes : Text → ℕ → Event

unfoldable pub step : Bridges → Event → Bridges
step r (opens id) = (open_bridge id r).0
step r (removes id b) = remove_bridge id b r

unfoldable pub run : Bridges → List Event → Bridges
run r [] = r
run r (e ∷ es) = run (step r e) es
