-- ===== src/Tests/Bridges.antt =====
-- The registry of internal/session/bridges.go at concrete inputs.
use open_console.Prelude.{Text, [], codes, refl, ◌∷◌, ◌≡◌}
use open_console.Relay.Bridges.{opens, open_bridge, step, run, new_bridges, close_all, len_bridges}

abbrev s : Text
s = codes "s"

shut_down :
    (len_bridges (run new_bridges (opens s ∷ opens (codes "t") ∷ [])) ≡ 2)
    × (len_bridges (
          close_all
            (λ r. r)
            (run new_bridges (opens s ∷ opens (codes "t") ∷ [])).entries
            (run new_bridges (opens s ∷ opens (codes "t") ∷ [])))
        ≡ 0)
unfolding run step open_bridge close_all
shut_down = (refl, refl)
