-- ===== src/Relay/Bridge.antt =====
-- internal/session/bridge.go: the terminal of one session, on channel 0, and the guests who watch it.
--
-- Each operation is one stretch under the mutex. The loop of serveHost takes the mutex twice for
-- one frame: to note it, and to hand it to the guests. The frame between the two is `pending`, and
-- other goroutines may run there. A guest has its frames in `sent`, then those in its queue `out`.
-- Errors of a transport end a guest, which is the event `leaves`. What the loop still reads after
-- Close reaches no guest, and is left out.
pub mod Watching
pub mod Views
pub mod Replay
pub mod Following
use open_console.Prelude.{
  ◌&&◌, ◌++◌, ◌==◌, Bool, Bytes, List, Option, Text, [], false, if◌then◌else◌, length, ltb, map,
  none, not, some, true, ◌||◌, ℕ, ◌∷◌,
}
use open_console.Relay.Ring.{FrameRing, new_frame_ring, add, frames_of}

pub data TermFrame : Type 0 where
  data_frame : Bytes → TermFrame
  resize_frame : ℕ → ℕ → TermFrame
  close_frame : Text → TermFrame

-- `guestConn`, with a number in place of its pointer.
pub record Guest : Type 0 where
  pub id : ℕ
  pub sent : List TermFrame
  pub out : List TermFrame

pub record Bridge : Type 0 where
  pub host : Bool
  pub closed : Bool
  pub guests : List Guest
  pub cols : ℕ
  pub rows : ℕ
  pub scroll : FrameRing
  pub pending : Option TermFrame

abbrev pub guest_queue_depth : ℕ
guest_queue_depth = 256

abbrev pub scrollback_bytes : ℕ
scrollback_bytes = 65536

abbrev pub new_bridge : Bridge
new_bridge = record {
  host = false;
  closed = false;
  guests = [];
  cols = 0;
  rows = 0;
  scroll = new_frame_ring scrollback_bytes;
  pending = none;
}

-- `serveHost` up to its loop; otherwise it returns an error.
abbrev pub attach_host : ℕ → ℕ → Bridge → Bridge
attach_host cols rows b =
    if b.closed || b.host then b else record b { host = true; cols = cols; rows = rows }

abbrev pub is_idle : Option TermFrame → Bool
is_idle none = true
is_idle (some f) = false

-- The loop takes the next frame when it is through with the last one.
abbrev pub is_reading : Bridge → Bool
is_reading b = b.host && is_idle b.pending

-- The cases of the loop, up to the broadcast.
unfoldable pub note : TermFrame → Bridge → Bridge
unfolding add
note (data_frame p) b = record b { scroll = add b.scroll p; pending = some (data_frame p) }
note (resize_frame cols rows) b = record b {
  cols = cols;
  rows = rows;
  pending = some (resize_frame cols rows);
}
note (close_frame reason) b = record b { pending = some (close_frame reason) }

-- The `select` for one guest: `none` when its queue is full.
abbrev pub offer : TermFrame → Guest → Option Guest
offer f g =
    if ltb (length g.out) guest_queue_depth then some (record g { out = g.out ++ f ∷ [] }) else none

abbrev pub keep : Option Guest → List Guest → List Guest
keep none gs = gs
keep (some g) gs = g ∷ gs

unfoldable pub offer_all : TermFrame → List Guest → List Guest
offer_all f [] = []
offer_all f (g ∷ gs) = keep (offer f g) (offer_all f gs)

-- `broadcast`: a guest that has fallen behind is no guest any more.
unfoldable pub broadcast : TermFrame → Bridge → Bridge
unfolding offer_all
broadcast f b = record b { guests = offer_all f b.guests }

abbrev pub fan_out_pending : Option TermFrame → Bridge → Bridge
fan_out_pending none b = b
fan_out_pending (some f) b = broadcast f (record b { pending = none })

-- `if cols != 0 || rows != 0`
abbrev pub hello : Bridge → List TermFrame
hello b = if not (b.cols == 0) || not (b.rows == 0) then resize_frame b.cols b.rows ∷ [] else []

-- `ServeGuest`: what it enters and copies under the mutex, and sends before the queue.
unfoldable pub attach_guest : ℕ → Bridge → Bridge
attach_guest id b =
    let g : Guest = record {
      id = id;
      sent = hello b ++ map data_frame (frames_of b.scroll);
      out = [];
    } in
    if b.closed || not b.host then b else record b { guests = b.guests ++ g ∷ [] }

abbrev pub write_next : Guest → List TermFrame → Guest
write_next g [] = g
write_next g (f ∷ fs) = record g { sent = g.sent ++ f ∷ []; out = fs }

-- The writer of one guest takes the next frame from the queue.
unfoldable pub write : ℕ → List Guest → List Guest
write id [] = []
write id (g ∷ gs) = if g.id == id then write_next g g.out ∷ gs else g ∷ write id gs

-- `delete(b.guests, g)`
unfoldable pub detach : ℕ → List Guest → List Guest
detach id [] = []
detach id (g ∷ gs) = if g.id == id then detach id gs else g ∷ detach id gs

-- `Close`
abbrev pub close : Bridge → Bridge
close b = if b.closed then b else record b { closed = true; host = false; guests = [] }

pub data Event : Type 0 where
  hosted : ℕ → ℕ → Event
  received : TermFrame → Event
  fanned_out ended : Event
  joins : ℕ → Event
  writes : ℕ → Event
  leaves : ℕ → Event

unfoldable pub step : Bridge → Event → Bridge
step b (hosted cols rows) = attach_host cols rows b
step b (received f) = if is_reading b then note f b else b
step b fanned_out = fan_out_pending b.pending b
step b ended = close b
step b (joins id) = attach_guest id b
step b (writes id) = record b { guests = write id b.guests }
step b (leaves id) = record b { guests = detach id b.guests }

unfoldable pub run : Bridge → List Event → Bridge
run b [] = b
run b (e ∷ es) = run (step b e) es
