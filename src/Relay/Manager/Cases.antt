-- ===== src/Relay/Manager/Cases.antt =====
-- The ways through the critical sections of Create in internal/session/manager.go, and the test on
-- identifiers as an equation.
use open_console.Prelude.{Option, false, if-cases, true, ℕ, ◌≡◌}
use open_console.Relay.Manager.{
  Manager, Session, Error, Result, create_check, create_commit, sweep, store, over, full, verdict,
  err, closed, too_many_sessions,
}

pub create_check-cases :
    (P : Manager × Option Error → Type 0) (now : ℕ) (m : Manager)
    → P (sweep now m, verdict (sweep now m) (over (sweep now m)))
    → P (m, verdict m false)
    → P (create_check now m)
unfolding create_check
create_check-cases P now m reclaimed as_is =
    if-cases P (full m) _ _ (λ is_full. reclaimed) (λ room. as_is)

pub create_commit-cases :
    (P : Manager × Result Session → Type 0) (now : ℕ) (s : Session) (m : Manager)
    → (m.closed ≡ true → P (m, err closed))
    → (m.closed ≡ false → P (sweep now m, err too_many_sessions))
    → (m.closed ≡ false → full m ≡ false → P (store s m))
    → (m.closed ≡ false → over (sweep now m) ≡ false → P (store s (sweep now m)))
    → P (create_commit now s m)
unfolding create_commit
create_commit-cases P now s m down_case refused stored reclaimed =
    if-cases P m.closed _ _ down_case (λ up.
      if-cases P (full m) _ _
        (λ is_full. if-cases P (over (sweep now m)) _ _ (λ still. refused up) (reclaimed up))
        (stored up))
