-- ===== src/Relay/Ring.antt =====
-- internal/session/ring.go: the recent output that a guest who joins late is shown first.
--
-- Lengths are the lengths of slices in memory, so the `int` fields do not overflow. A bound that
-- is not positive stands as 0, which Add treats alike.
pub mod Latest
use open_console.Prelude.{
  ◌+◌, ◌++◌, ◌-◌, Bytes, List, [], if◌then◌else◌, leb, length, ltb, ◌||◌, ℕ, ◌∷◌,
}

pub record FrameRing : Type 0 where
  pub max_bytes : ℕ
  pub bytes : ℕ
  pub frames : List Bytes

abbrev pub new_frame_ring : ℕ → FrameRing
new_frame_ring max_bytes = record { max_bytes = max_bytes; bytes = 0; frames = [] }

-- The loop at the end of `Add`: frames leave at the front until the rest fits.
unfoldable pub evict : ℕ → ℕ → List Bytes → FrameRing
evict max_bytes bytes [] = record { max_bytes = max_bytes; bytes = bytes; frames = [] }
evict max_bytes bytes (f ∷ fs) =
    if ltb max_bytes bytes
    then evict max_bytes (bytes - length f) fs
    else record { max_bytes = max_bytes; bytes = bytes; frames = f ∷ fs }

unfoldable pub add : FrameRing → Bytes → FrameRing
unfolding evict
add r p =
    if leb r.max_bytes 0 || leb (length p) 0
    then r
    else if leb r.max_bytes (length p)
    then record r { frames = p ∷ []; bytes = length p }
    else evict r.max_bytes (r.bytes + length p) (r.frames ++ p ∷ [])

-- `Frames`, `Len` and `Count`.
abbrev pub frames_of : FrameRing → List Bytes
frames_of r = r.frames

abbrev pub len : FrameRing → ℕ
len r = r.bytes

abbrev pub count : FrameRing → ℕ
count r = length r.frames

-- The ring after a sequence of calls of `Add`.
unfoldable pub add_all : FrameRing → List Bytes → FrameRing
add_all r [] = r
add_all r (p ∷ ps) = add_all (add r p) ps
