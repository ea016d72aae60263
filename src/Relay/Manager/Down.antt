-- ===== src/Relay/Manager/Down.antt =====
-- A manager of internal/session/manager.go that was closed stays closed and empty.
use open_console.Prelude.{Bool, List, [], ap, arith, false, length, refl, true, ℕ, ◌∷◌, ◌≡◌}
use open_console.Relay.Manager.Cases.{create_check-cases, create_commit-cases}
use open_console.Relay.Manager.{
  Manager, Session, Event, Draws, checked, committed, deleted, swept, shut, closed, err, live,
  remove, sweep, verdict, over, create_commit, create_checked, create, delete, sweep_expired, close,
  step, run, len,
}

IsDown : Manager → Type 0
IsDown m = (m.closed ≡ true) × (m.sessions ≡ [])

sweep-IsDown : (now : ℕ) (m : Manager) → IsDown m → IsDown (sweep now m)
unfolding IsDown live
sweep-IsDown now m h = (h.0, ap (live now) h.1)

up_and_down : (m : Manager) (A : Type 0) → IsDown m → m.closed ≡ false → A
unfolding IsDown
up_and_down m A h up = absurd (ground (arith, h.0))

step-IsDown : (e : Event) (m : Manager) → IsDown m → IsDown (step m e)
unfolding step IsDown delete sweep_expired close remove
step-IsDown (checked now) m h = create_check-cases (λ r. IsDown r.0) now m (sweep-IsDown now m h) h
step-IsDown (committed now s) m h =
    create_commit-cases (λ r. IsDown r.0) now s m (λ down. h) (λ up. sweep-IsDown now m h)
      (λ up room. up_and_down m _ h up) (λ up freed. up_and_down m _ h up)
step-IsDown (deleted id) m h = (h.0, ap (remove id) h.1)
step-IsDown (swept now) m h = sweep-IsDown now m h
step-IsDown shut m h = (refl, refl)

run-IsDown : (es : List Event) (m : Manager) → IsDown m → IsDown (run m es)
unfolding run
run-IsDown [] m h = h
run-IsDown (e ∷ es) m h = run-IsDown es (step m e) (step-IsDown e m h)

refused_down :
    (now : ℕ) (d : Draws) (full_now : Bool) (m : Manager)
    → m.closed ≡ true
    → (create_checked now d (m, verdict m full_now)).1 ≡ err closed
refused_down now d full_now m h = simp h

-- Whatever runs after Close, the store stays empty, and Create answers ErrClosed, also one that
-- was under way when Close ran.
pub create-run-close :
    (now : ℕ) (d : Draws) (m : Manager) (es : List Event) (s : Session)
    → (len (run (close m) es) ≡ 0)
      × ((create false now d (run (close m) es)).1 ≡ err closed)
      × ((create_commit now s (run (close m) es)).1 ≡ err closed)
unfolding IsDown close create
create-run-close now d m es s =
    let down = run-IsDown es (close m) (refl, refl) in
    let n = run (close m) es in
    (
      ap length down.1,
      create_check-cases (λ r. (create_checked now d r).1 ≡ err closed) now n
          (refused_down now d (over (sweep now n)) (sweep now n) down.0)
          (refused_down now d false n down.0),
      create_commit-cases (λ r. r.1 ≡ err closed) now s n (λ shut_down. refl)
          (λ up. up_and_down n _ down up) (λ up room. up_and_down n _ down up)
          (λ up freed. up_and_down n _ down up),
    )
