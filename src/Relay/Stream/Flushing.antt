-- ===== src/Relay/Stream/Flushing.antt =====
-- A stream that is stopped delivers what it had taken, and then its last word.
use open_console.Prelude.{◌++◌, List, [], if◌then◌else◌, ◌∷◌}
use open_console.Relay.Stream.{
  Event, Phase, Stream, accepts, flushes, flushing, queues, step, writing,
}

module _ (Frame : Type 0) where
  -- What `queue` took during the events.
  abbrev pub taken_by : Stream Frame → Event Frame → List Frame
  taken_by s (queues chosen f) = if accepts Frame chosen s then f ∷ [] else []
  taken_by s _ = []

  abbrev pub taken : Stream Frame → List (Event Frame) → List Frame
  taken s [] = []
  taken s (e ∷ es) = taken_by s e ++ taken (step Frame s e) es

  -- What was sent and what waits, in order.
  abbrev pub in_hand : Stream Frame → List Frame
  in_hand s = s.sent ++ s.out

  -- The writer has not returned.
  abbrev pub IsActive : Phase → Type 0
  IsActive writing = Unit
  IsActive flushing = Unit
  IsActive _ = ⊥

  -- A round of flushForward for each frame, and one for the last word.
  abbrev pub rounds : List Frame → List (Event Frame)
  rounds [] = flushes ∷ []
  rounds (f ∷ fs) = flushes ∷ rounds fs
