-- ===== src/Relay/Forward.antt =====
-- internal/session/forward.go: the two numberings of the forwarded streams. Guests number their own
-- channels, and the relay gives each stream a number of its own toward the host.
--
-- Guests are numbered in place of their pointers. The map `forwards` is the list of the forwards,
-- each under its own `hostChan`, and the maps `channels` of all guests are one list. Each operation
-- here is one stretch under the bridge's mutex.
pub mod Tables
pub mod Routed
pub mod Opening
pub mod Runs
pub mod Numbers
use open_console.Prelude.{
  ◌%◌, ◌&&◌, ◌+◌, ◌==◌, Bool, List, Option, [], ◌^◌, false, if◌then◌else◌, leb, length, none, not,
  some, true, ◌||◌, ℕ, ◌∷◌,
}

pub record Forward : Type 0 where
  pub guest : ℕ
  pub guest_chan : ℕ
  pub host_chan : ℕ

-- `host` says whether `b.host` is set.
pub record Routes : Type 0 where
  pub host : Bool
  pub closed : Bool
  pub forwards : List Forward
  pub channels : List Forward
  pub next_chan : ℕ

abbrev pub no_routes : Routes
no_routes = record { host = false; closed = false; forwards = []; channels = []; next_chan = 0 }

abbrev pub max_channels : ℕ
max_channels = 64

-- `b.forwards[h]`
unfoldable pub find : ℕ → List Forward → Option Forward
find h [] = none
find h (f ∷ fs) = if f.host_chan == h then some f else find h fs

-- `delete(b.forwards, h)`
unfoldable pub erase : ℕ → List Forward → List Forward
erase h [] = []
erase h (f ∷ fs) = if f.host_chan == h then erase h fs else f ∷ erase h fs

abbrev pub is_at : ℕ → ℕ → Forward → Bool
is_at g c f = (f.guest == g) && (f.guest_chan == c)

-- `g.channels[c]`
unfoldable pub channel : ℕ → ℕ → List Forward → Option ℕ
channel g c [] = none
channel g c (e ∷ es) = if is_at g c e then some e.host_chan else channel g c es

-- `delete(g.channels, c)`
unfoldable pub forget : ℕ → ℕ → List Forward → List Forward
forget g c [] = []
forget g c (e ∷ es) = if is_at g c e then forget g c es else e ∷ forget g c es

pub data Opened : Type 0 where
  opened : ℕ → Opened
  no_host channel_limit channel_in_use : Opened

-- `b.nextChan++` on 32 bits.
abbrev pub next_of : Routes → ℕ
next_of r = (r.next_chan + 1) % 2 ^ 32

abbrev pub open_beside : Option ℕ → ℕ → ℕ → Routes → Routes × Opened
open_beside (some h) g c r = (r, channel_in_use)
open_beside none g c r =
    let f : Forward = record { guest = g; guest_chan = c; host_chan = next_of r } in
    (
      record r {
        next_chan = next_of r;
        forwards = f ∷ erase (next_of r) r.forwards;
        channels = f ∷ r.channels;
      },
      opened (next_of r),
    )

unfoldable pub open_forward : ℕ → ℕ → Routes → Routes × Opened
unfolding channel erase
open_forward g c r =
    if r.closed || not r.host
    then (r, no_host)
    else if leb max_channels (length r.forwards)
    then (r, channel_limit)
    else open_beside (channel g c r.channels) g c r

unfoldable pub lookup_guest_channel : ℕ → ℕ → Routes → Option ℕ
lookup_guest_channel g c r = channel g c r.channels

unfoldable pub lookup_host_channel : ℕ → Routes → Option Forward
lookup_host_channel h r = find h r.forwards

-- Both tables lose the stream.
unfoldable pub cut : ℕ → ℕ → ℕ → Routes → Routes
unfolding erase forget
cut g c h r = record r { forwards = erase h r.forwards; channels = forget g c r.channels }

abbrev pub close_found : ℕ → Option Forward → Routes → Routes
close_found h none r = r
close_found h (some f) r = cut f.guest f.guest_chan h r

unfoldable pub close_forward : ℕ → Routes → Routes × Option Forward
unfolding find cut
close_forward h r = (close_found h (find h r.forwards) r, find h r.forwards)

abbrev pub drop_channel : ℕ → ℕ → Option ℕ → Routes → Routes
drop_channel g c none r = r
drop_channel g c (some h) r = cut g c h r

-- The loop of `closeGuestForwards` over the channels that the guest had. Where `forwards` has no
-- such stream, `delete` does nothing.
unfoldable pub drop_channels : ℕ → List Forward → Routes → Routes
unfolding cut channel
drop_channels g [] r = r
drop_channels g (e ∷ es) r =
    let rest =
      drop_channels g es (drop_channel g e.guest_chan (channel g e.guest_chan r.channels) r) in
    let skip = drop_channels g es r in if e.guest == g then rest else skip

unfoldable pub close_guest_forwards : ℕ → Routes → Routes
unfolding drop_channels
close_guest_forwards g r = drop_channels g r.channels r

-- What happens to the tables under the mutex: a host attaches, a guest opens a stream, a stream is
-- closed from either side, a guest leaves, the bridge closes.
pub data Event : Type 0 where
  host_attached bridge_closed : Event
  opens : ℕ → ℕ → Event
  closes : ℕ → Event
  leaves : ℕ → Event

unfoldable pub step : Routes → Event → Routes
step r host_attached = if r.closed || r.host then r else record r { host = true }
step r bridge_closed = if r.closed then r else record r { closed = true; host = false }
step r (opens g c) = (open_forward g c r).0
step r (closes h) = (close_forward h r).0
step r (leaves g) = close_guest_forwards g r

unfoldable pub run : Routes → List Event → Routes
run r [] = r
run r (e ∷ es) = run (step r e) es
