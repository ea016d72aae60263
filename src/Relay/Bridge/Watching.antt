-- ===== src/Relay/Bridge/Watching.antt =====
-- What a guest of internal/session/bridge.go sees of the host's terminal.
use open_console.Prelude.{
  ◌++◌, Bytes, List, Option, [], ap, if◌then◌else◌, map, none, refl, some, ◌∷◌, ◌≡◌,
}
use open_console.Relay.Bridge.{
  Guest, TermFrame, Bridge, Event, data_frame, resize_frame, close_frame, is_reading, received,
  step,
}

-- The contents of the DATA frames.
unfoldable pub shown : List TermFrame → List Bytes
shown [] = []
shown (data_frame p ∷ fs) = p ∷ shown fs
shown (resize_frame c r ∷ fs) = shown fs
shown (close_frame x ∷ fs) = shown fs

pub shown-append : (fs gs : List TermFrame) → shown (fs ++ gs) ≡ shown fs ++ shown gs
unfolding shown
shown-append [] gs = refl
shown-append (data_frame p ∷ fs) gs = ap (λ l. p ∷ l) (shown-append fs gs)
shown-append (resize_frame c r ∷ fs) gs = shown-append fs gs
shown-append (close_frame x ∷ fs) gs = shown-append fs gs

pub shown-map : (ps : List Bytes) → shown (map data_frame ps) ≡ ps
unfolding shown
shown-map [] = refl
shown-map (p ∷ ps) = ap (λ l. p ∷ l) (shown-map ps)

-- The output that was sent to a guest or waits in its queue.
unfoldable pub seen : Guest → List Bytes
unfolding shown
seen g = shown (g.sent ++ g.out)

abbrev pub waiting : Option TermFrame → List TermFrame
waiting none = []
waiting (some f) = f ∷ []

-- The DATA that the host's loop takes in.
abbrev pub taken : Bridge → Event → List Bytes
taken b (received f) = if is_reading b then shown (f ∷ []) else []
taken b _ = []

unfoldable pub taken_all : Bridge → List Event → List Bytes
unfolding shown step
taken_all b [] = []
taken_all b (e ∷ es) = taken b e ++ taken_all (step b e) es
