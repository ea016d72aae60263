-- ===== src/Tests/Ring.antt =====
-- internal/session/ring.go at concrete inputs.
use open_console.Prelude.{Bytes, List, [], arith, codes, refl, ◌∷◌, ◌≡◌}
use open_console.Relay.Ring.{new_frame_ring, add_all, frames_of, len, add}
use open_console.Relay.Ring.Latest.{latest, solid, total, add_all-latest}

abbrev burst : List Bytes
burst = codes "abc" ∷ [] ∷ codes "de" ∷ codes "f" ∷ []

keeps_the_end : frames_of (add_all (new_frame_ring 4) burst) ≡ codes "de" ∷ codes "f" ∷ []
unfolding add_all add
keeps_the_end = refl

keeps_a_large_frame :
    frames_of (add_all (new_frame_ring 2) (codes "a" ∷ codes "bcdef" ∷ [])) ≡ codes "bcdef" ∷ []
unfolding add_all add
keeps_a_large_frame = refl

add_all-latest_example :
    (frames_of (add_all (new_frame_ring 4) burst) ≡ latest 4 (solid burst))
    × (len (add_all (new_frame_ring 4) burst)
        ≡ total (frames_of (add_all (new_frame_ring 4) burst)))
add_all-latest_example = add_all-latest 4 burst (omega arith)
