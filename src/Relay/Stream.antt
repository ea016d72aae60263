-- ===== src/Relay/Stream.antt =====
-- The queue of a forwarded stream and its writer: queue, stop, runForwardWriter and flushForward of
-- internal/session/forward.go.
--
-- An event is what one goroutine does next: the host's loop that queues a frame, whoever stops the
-- stream or gives it its last word, and the writer. Where a `select` may choose, the event says what
-- it chose. A frame is whatever the transport carries.
pub mod Flushing
use open_console.Prelude.{
  ◌&&◌, ◌*◌, ◌++◌, ◌/◌, Bool, List, Option, [], false, if◌then◌else◌, length, ltb, none, not, some,
  true, ◌||◌, ℕ, ◌∷◌,
}

-- `(protocol.InitialWindow / (32 << 10)) * 4`
abbrev pub forward_queue_depth : ℕ
forward_queue_depth = 262144 / 32768 * 4

-- Where the writer is: in its loop, in flushForward, returned from there, or returned because a
-- write failed or the context ended.
pub data Phase : Type 0 where
  writing flushing flushed abandoned : Phase

module _ (Frame : Type 0) where
  pub record Stream : Type 0 where
    pub out : List Frame
    pub closed : Bool
    pub last : Option Frame
    pub sent : List Frame
    pub phase : Phase

  abbrev pub new_stream : Stream
  new_stream = record { out = []; closed = false; last = none; sent = []; phase = writing }

  -- `queue`: with room in a stream that is closed, the `select` takes either way.
  abbrev pub accepts : Bool → Stream → Bool
  accepts chosen s = ltb (length s.out) forward_queue_depth && (not s.closed || chosen)

  unfoldable pub queue : Bool → Frame → Stream → Stream
  queue chosen f s = if accepts chosen s then record s { out = s.out ++ f ∷ [] } else s

  -- `f.last <- notice`, with the `default`.
  abbrev pub or_first : Option Frame → Frame → Option Frame
  or_first none f = some f
  or_first (some first) f = some first

  abbrev pub send_next : List Frame → Stream → Stream
  send_next [] s = s
  send_next (f ∷ fs) s = record s { out = fs; sent = s.sent ++ f ∷ [] }

  abbrev pub notice_of : Option Frame → List Frame
  notice_of none = []
  notice_of (some f) = f ∷ []

  -- One round of flushForward: the last word goes out when nothing else is queued.
  abbrev pub flush_next : List Frame → Stream → Stream
  flush_next [] s = record s { last = none; sent = s.sent ++ notice_of s.last; phase = flushed }
  flush_next (f ∷ fs) s = record s { out = fs; sent = s.sent ++ f ∷ [] }

  pub data Event : Type 0 where
    queues : Bool → Frame → Event
    last_word : Frame → Event
    stops writes sees_stop flushes gives_up : Event

  abbrev pub write_when : Phase → Stream → Stream
  write_when writing s = send_next s.out s
  write_when _ s = s

  abbrev pub see_when : Phase → Stream → Stream
  see_when writing s = if s.closed then record s { phase = flushing } else s
  see_when _ s = s

  abbrev pub flush_when : Phase → Stream → Stream
  flush_when flushing s = flush_next s.out s
  flush_when _ s = s

  abbrev pub abandon_when : Phase → Stream → Stream
  abandon_when flushed s = s
  abandon_when _ s = record s { phase = abandoned }

  unfoldable pub step : Stream → Event → Stream
  unfolding queue
  step s (queues chosen f) = queue chosen f s
  step s (last_word f) = record s { last = or_first s.last f }
  step s stops = record s { closed = true }
  step s writes = write_when s.phase s
  step s sees_stop = see_when s.phase s
  step s flushes = flush_when s.phase s
  step s gives_up = abandon_when s.phase s

  unfoldable pub run : Stream → List Event → Stream
  unfolding step
  run s [] = s
  run s (e ∷ es) = run (step s e) es
