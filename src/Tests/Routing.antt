-- ===== src/Tests/Routing.antt =====
-- Frames through the relay.
use open_console.Prelude.{
  Bytes, List, Option, [], arith, codes, false, none, refl, some, true, ℕ, ◌∷◌, ◌≡◌,
}
use open_console.Wire.{type_data, type_open}
use open_console.Relay.Forward.{
  Event, Routes, host_attached, lookup_guest_channel, no_routes, open_forward, opens, run, step,
}
use open_console.Relay.Routing.{
  ChannelOpen, Frame, Sender, carried, from_guest, from_host_channel, notice, on_channel,
  type_close, overran, session_read_only, type_error,
}
use open_console.Relay.Routing.Owned.{from_host_channel-from_guest}
use open_console.Relay.Stream.{
  Stream, last_word, new_stream, queues, sees_stop, stops, writes, run as run_stream,
}
use open_console.Relay.Stream

abbrev request : ChannelOpen
request = record { kind = codes "tcp"; host = codes "localhost"; port = 5432 }

-- Every payload is read as a request for one service.
abbrev decode : Bytes → Option ChannelOpen
decode [] = none
decode (b ∷ bs) = some request

abbrev alone : Routes → Routes
alone r = r

abbrev two_guests : List Event
two_guests = host_attached ∷ opens 7 1 ∷ opens 8 1 ∷ []

abbrev writer : Sender
writer = record { id = 8; can_write = true }

abbrev on_one : ℕ → Frame
on_one type = record { type = type; channel = 1; payload = carried (codes "x") }

routed :
    ((from_guest decode alone writer (on_one type_data) (run no_routes two_guests)).to_host
      ≡ record { type = type_data; channel = 2; payload = carried (codes "x") } ∷ [])
    × ((from_guest decode alone writer
          (record (on_one type_open) { channel = 5 })
          (run no_routes two_guests)).to_host
        ≡ record { type = type_open; channel = 3; payload = carried (codes "x") } ∷ [])
    × ((from_guest decode alone
          (record writer { can_write = false })
          (on_one type_data)
          (run no_routes two_guests)).to_guest
        ≡ record { type = type_error; channel = 1; payload = notice session_read_only } ∷ [])
unfolding from_guest run step
routed = (refl, refl, refl)

-- A stream whose queue is full is given up on, at both ends.
given_up :
    (from_host_channel false
      (record (on_one type_data) { channel = 2 })
      (run no_routes two_guests)).last
    ≡ some (8, record { type = type_close; channel = 1; payload = notice overran })
unfolding from_host_channel run step open_forward
given_up = refl

second_number : lookup_guest_channel 8 1 (run no_routes two_guests) ≡ some 2
unfolding run step lookup_guest_channel open_forward
second_number = refl

host_there : (run no_routes two_guests).host ≡ true
unfolding run step open_forward
host_there = refl

from_host_channel-from_guest_example :
    ((from_guest decode alone writer (on_one type_data) (run no_routes two_guests)).to_host
      ≡ on_channel (on_one type_data) 2 ∷ [])
    × ((from_host_channel true
          (record (on_one type_data) { channel = 2 })
          (run no_routes two_guests)).queued
        ≡ some (8, on_one type_data))
from_host_channel-from_guest_example =
    from_host_channel-from_guest decode alone two_guests writer (on_one type_data)
      (record (on_one type_data) { channel = 2 }) 2 (omega arith) refl
      (λ e. absurd (omega (arith, e))) refl host_there second_number refl

-- Two frames, the stop between them, a last word, and the writer.
abbrev stopping : List (Stream.Event ℕ)
stopping =
    queues true 1
    ∷ queues true 2
    ∷ writes
    ∷ last_word 9
    ∷ stops
    ∷ queues false 3
    ∷ sees_stop
    ∷ queues true 4
    ∷ []

abbrev stopped : Stream ℕ
stopped = run_stream ℕ (new_stream ℕ) stopping
