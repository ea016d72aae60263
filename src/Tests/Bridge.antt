-- ===== src/Tests/Bridge.antt =====
-- The bridge of internal/session/bridge.go at concrete inputs.
use open_console.Prelude.{All, List, [], codes, map, refl, ◌∷◌, ◌≡◌}
use open_console.Relay.Ring.{add}
use open_console.Relay.Bridge.{
  write, Event, data_frame, hosted, received, fanned_out, joins, writes, run, step, note,
  attach_guest, broadcast, new_bridge,
}
use open_console.Relay.Bridge.Watching.{seen, taken_all}
use open_console.Relay.Bridge.Replay.{IsWatched}
use open_console.Relay.Bridge.Following.{guests_watch}

abbrev out : List Event
out =
    hosted 80 24
    ∷ received (data_frame (codes "a"))
    ∷ fanned_out
    ∷ joins 1
    ∷ received (data_frame (codes "b"))
    ∷ fanned_out
    ∷ writes 1
    ∷ received (data_frame (codes "c"))
    ∷ []

-- One guest, which was sent the replay and the next frame.
watches : map seen (run new_bridge out).guests ≡ (codes "a" ∷ codes "b" ∷ []) ∷ []
unfolding run step note attach_guest broadcast write seen add
watches = refl

guests_watch_example :
    All
      (IsWatched (taken_all new_bridge out) (run new_bridge out).pending)
      (run new_bridge out).guests
guests_watch_example = guests_watch out
