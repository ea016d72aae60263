-- ===== src/Tests/Forward.antt =====
-- The forwarded streams of internal/session/forward.go at concrete inputs.
use open_console.Prelude.{List, [], refl, some, ◌∷◌, ◌≡◌}
use open_console.Relay.Forward.{
  step, find, close_forward, close_guest_forwards, Event, opened, channel_in_use, host_attached,
  opens, closes, leaves, run, no_routes, open_forward, lookup_guest_channel, lookup_host_channel,
}

-- Two guests open their channel 1; the first one closes it and opens it again.
abbrev day : List Event
day = host_attached ∷ opens 7 1 ∷ opens 8 1 ∷ closes 1 ∷ opens 7 1 ∷ []

third_number : lookup_guest_channel 7 1 (run no_routes day) ≡ some 3
unfolding run step lookup_guest_channel open_forward close_forward
third_number = refl

left_alone :
    lookup_host_channel 2 (run no_routes (host_attached ∷ opens 7 1 ∷ opens 8 1 ∷ leaves 7 ∷ []))
    ≡ some (record { guest = 8; guest_chan = 1; host_chan = 2 })
unfolding run step lookup_host_channel find open_forward close_guest_forwards
left_alone = refl

in_use : (open_forward 7 1 (run no_routes day)).1 ≡ channel_in_use
unfolding run step open_forward close_forward
in_use = refl

first_opened : (open_forward 7 1 (run no_routes (host_attached ∷ []))).1 ≡ opened 1
unfolding run step open_forward
first_opened = refl

then_opened :
    (open_forward 7 1
      (run (open_forward 7 1 (run no_routes (host_attached ∷ []))).0 (closes 1 ∷ []))).1
    ≡ opened 2
unfolding run step open_forward close_forward
then_opened = refl
