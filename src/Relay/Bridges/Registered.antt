-- ===== src/Relay/Bridges/Registered.antt =====
-- A bridge of internal/session/bridges.go stays the one of its session until it closes itself.
use open_console.Prelude.{◌==◌, Option, Text, false, text_eq, ℕ, ◌≡◌, ◌⊎◌}
use open_console.Relay.Bridges.{Bridges, Event, opens, removes}

-- Anything but that this bridge closes.
unfoldable pub IsOther : Text → ℕ → Event → Type 0
IsOther id b (opens other) = Unit
IsOther id b (removes other c) = (text_eq id other ≡ false) ⊎ (b == c ≡ false)
