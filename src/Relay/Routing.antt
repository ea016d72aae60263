-- ===== src/Relay/Routing.antt =====
-- What the relay does with a frame: fromGuest of internal/session/bridge.go, and fromGuestChannel,
-- openGuestChannel and fromHostChannel of forward.go with Validate of internal/protocol/channel.go.
--
-- A handler takes the mutex for each look at the tables, and other goroutines may change them
-- between: `others` is whatever they do there. Reading JSON as a ChannelOpen is a parameter, and
-- errors of a transport are left out.
pub mod ReadOnly
pub mod Owned
use open_console.Prelude.{
  ◌&&◌, ◌==◌, Bool, Bytes, List, Option, Text, [], codes, if◌then◌else◌, leb, length, ltb, none,
  not, some, text_eq, ◌||◌, ℕ, ◌∷◌,
}
use open_console.Wire.{type_open, type_data, type_window}
use open_console.Relay.Auth.{Access, access_guest, can_write}
use open_console.Relay.Forward.{
  Forward, Routes, Opened, opened, no_host, channel_limit, channel_in_use, open_forward,
  close_forward, lookup_guest_channel, lookup_host_channel,
}

abbrev pub type_resize : ℕ
type_resize = 3

abbrev pub type_ping : ℕ
type_ping = 4

abbrev pub type_pong : ℕ
type_pong = 5

abbrev pub type_close : ℕ
type_close = 6

abbrev pub type_error : ℕ
type_error = 7

-- What a control frame of the relay itself says.
pub data Notice : Type 0 where
  session_read_only malformed_open invalid_open too_many_forwards already_open : Notice
  host_not_connected overran : Notice

pub data Payload : Type 0 where
  carried : Bytes → Payload
  notice : Notice → Payload

pub record Frame : Type 0 where
  pub type : ℕ
  pub channel : ℕ
  pub payload : Payload

-- `guestConn`, as far as routing reads it.
pub record Sender : Type 0 where
  pub id : ℕ
  pub can_write : Bool

-- What ServeGuest makes of the access that it is given; `none` is the empty string.
abbrev pub access_or_guest : Option Access → Access
access_or_guest none = access_guest
access_or_guest (some a) = a

abbrev pub serve_as : ℕ → Option Access → Sender
serve_as id access = record { id = id; can_write = can_write (access_or_guest access) }

pub record ChannelOpen : Type 0 where
  pub kind : Text
  pub host : Bytes
  pub port : ℕ

unfoldable pub validate : ChannelOpen → Bool
validate c =
    text_eq c.kind (codes "tcp")
    && (ltb 0 (length c.host) && (leb (length c.host) 255 && not (c.port == 0)))

pub data Fault : Type 0 where
  host_gone bridge_closed : Fault

-- What a handler leaves: the tables, what it sent to the host and to the guest, and its error.
pub record Reaction : Type 0 where
  pub routes : Routes
  pub to_host : List Frame
  pub to_guest : List Frame
  pub fault : Option Fault

abbrev pub quiet : Routes → Reaction
quiet r = record { routes = r; to_host = []; to_guest = []; fault = none }

-- `onChannel`
abbrev pub on_channel : Frame → ℕ → Frame
on_channel f id = record f { channel = id }

-- `toHost`
abbrev pub pass_to_host : Frame → Routes → Reaction
pass_to_host f r =
    if r.host
    then record (quiet r) { to_host = f ∷ [] }
    else record (quiet r) { fault = some host_gone }

-- `refuseChannel`
abbrev pub refuse : ℕ → Notice → Routes → Reaction
refuse channel n r = record (quiet r) {
  to_guest = record { type = type_error; channel = channel; payload = notice n } ∷ [];
}

abbrev pub is_closing : ℕ → Bool
is_closing t = t == type_close || t == type_error

abbrev pub is_stream : ℕ → Bool
is_stream t = t == type_data || (t == type_window || is_closing t)

module _ (decode_open : Bytes → Option ChannelOpen) (others : Routes → Routes) where
  abbrev pub pass_opened : Frame → Routes × Opened → Reaction
  pass_opened f (r, opened h) = pass_to_host (on_channel f h) (others r)
  pass_opened f (r, channel_limit) = refuse f.channel too_many_forwards r
  pass_opened f (r, channel_in_use) = refuse f.channel already_open r
  pass_opened f (r, no_host) = refuse f.channel host_not_connected r

  abbrev pub open_requested : Sender → Frame → Option ChannelOpen → Routes → Reaction
  open_requested g f none r = refuse f.channel malformed_open r
  open_requested g f (some request) r =
      if not (validate request)
      then refuse f.channel invalid_open r
      else pass_opened f (open_forward g.id f.channel r)

  abbrev pub decoded : Payload → Option ChannelOpen
  decoded (carried bytes) = decode_open bytes
  decoded (notice n) = none

  unfoldable pub open_guest_channel : Sender → Frame → Routes → Reaction
  unfolding validate open_forward
  open_guest_channel g f r = open_requested g f (decoded f.payload) r

  abbrev pub closed_when : Bool → ℕ → Routes → Routes
  closed_when closing h r = if closing then (close_forward h (others r)).0 else r

  abbrev pub pass_stream : Frame → Option ℕ → Routes → Reaction
  pass_stream f none r = quiet r
  pass_stream f (some h) r =
      pass_to_host (on_channel f h) (others (closed_when (is_closing f.type) h r))

  unfoldable pub from_guest_channel : Sender → Frame → Routes → Reaction
  unfolding open_guest_channel lookup_guest_channel close_forward
  from_guest_channel g f r =
      if not g.can_write
      then refuse f.channel session_read_only r
      else if f.type == type_open
      then open_guest_channel g f r
      else if is_stream f.type
      then pass_stream f (lookup_guest_channel g.id f.channel r) r
      else quiet r

  -- Frames that fall through, RESIZE and PONG among them, are ignored.
  unfoldable pub from_guest : Sender → Frame → Routes → Reaction
  unfolding from_guest_channel
  from_guest g f r =
      if not (f.channel == 0)
      then from_guest_channel g f r
      else if f.type == type_data
      then (if not g.can_write
          then quiet r
          else pass_to_host (record { type = type_data; channel = 0; payload = f.payload }) r)
      else if f.type == type_ping
      then record (quiet r) {
        to_guest = record { type = type_pong; channel = 0; payload = f.payload } ∷ [];
      }
      else if f.type == type_close
      then record (quiet r) { fault = some bridge_closed }
      else quiet r

-- What the relay makes of a frame of the host on a channel: what the queue of a stream is given, its
-- last word if the relay gives it up, what the host is told, and the tables afterwards. `accepted`
-- says whether `queue` took the frame.
pub record Delivery : Type 0 where
  pub tables : Routes
  pub queued : Option (ℕ × Frame)
  pub last : Option (ℕ × Frame)
  pub told_host : List Frame

abbrev pub undelivered : Routes → Delivery
undelivered r = record { tables = r; queued = none; last = none; told_host = [] }

abbrev pub given : Bool → ℕ → Frame → Option (ℕ × Frame)
given accepted guest f = if accepted then some (guest, f) else none

abbrev pub closing_frame : ℕ → Frame
closing_frame channel = record { type = type_close; channel = channel; payload = notice overran }

-- `retireForward`
abbrev pub retire : ℕ → Forward → Routes → Delivery
retire h s r =
    let r' = (close_forward h r).0 in
    record {
      tables = r';
      queued = none;
      last = some (s.guest, closing_frame s.guest_chan);
      told_host = (pass_to_host (closing_frame h) r').to_host;
    }

abbrev pub deliver : Bool → Frame → Option Forward → Routes → Delivery
deliver accepted f none r = undelivered r
deliver accepted f (some s) r =
    if not accepted && not (is_closing f.type)
    then retire f.channel s r
    else record (undelivered (if is_closing f.type then (close_forward f.channel r).0 else r)) {
      queued = given accepted s.guest (on_channel f s.guest_chan);
    }

unfoldable pub from_host_channel : Bool → Frame → Routes → Delivery
unfolding lookup_host_channel close_forward
from_host_channel accepted f r = deliver accepted f (lookup_host_channel f.channel r) r
