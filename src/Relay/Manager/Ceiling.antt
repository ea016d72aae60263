-- ===== src/Relay/Manager/Ceiling.antt =====
-- The cap of internal/session/manager.go, and what a closed manager does.
use open_console.Prelude.{
  ◌<◌, Bool-cases, List, Option, Text, [], arith, false, inl, inr, length, none, refl, some,
  text_eq, ℕ, ◌∷◌, ◌≡◌, ◌≤◌,
}
use open_console.Relay.Manager.Cases.{create_check-cases, create_commit-cases}
use open_console.Relay.Manager.{
  Manager, store_beside, sweep, full, create_check, create_commit, delete, sweep_expired, close,
  step, run, Event, checked, committed, deleted, swept, shut, Options, new_manager, len, Session,
  live, remove, expired, over,
}

length-live : (now : ℕ) (l : List (Text × Session)) → length (live now l) ≤ length l
unfolding live
length-live now [] = omega arith
length-live now ((key, s) ∷ rest) = elim (Bool-cases (expired s now)) [
  | inl over_now ↦ rw over_now (omega (arith, length-live now rest))
  | inr still ↦ rw still (omega (arith, length-live now rest))
]

length-remove : (id : Text) (l : List (Text × Session)) → length (remove id l) ≤ length l
unfolding remove
length-remove id [] = omega arith
length-remove id ((key, s) ∷ rest) = elim (Bool-cases (text_eq key id)) [
  | inl this ↦ rw this (omega (arith, length-remove id rest))
  | inr other ↦ rw other (omega (arith, length-remove id rest))
]

-- The manager has the cap `top` and does not exceed it.
pub IsWithin : ℕ → Manager → Type 0
IsWithin top m = (m.max ≡ top) × (length m.sessions ≤ top)

sweep-IsWithin : (top now : ℕ) (m : Manager) → IsWithin top m → IsWithin top (sweep now m)
unfolding IsWithin
sweep-IsWithin top now m h = (h.0, omega (arith, h.1, length-live now m.sessions))

not_over : (top : ℕ) (m : Manager) → IsWithin top m → over m ≡ false → length m.sessions < top
unfolding IsWithin
not_over top m h k = ground (arith, h.0)

not_full :
    (top : ℕ) (m : Manager) → 0 < top → IsWithin top m → full m ≡ false → length m.sessions < top
unfolding IsWithin
not_full top m p h k = ground (arith, h.0)

-- One more fits where the store is not full.
store-IsWithin :
    (top : ℕ) (o : Option Session) (s : Session) (m : Manager)
    → IsWithin top m
    → length m.sessions < top
    → IsWithin top (store_beside o s m).0
unfolding IsWithin
store-IsWithin top (some other) s m h k = h
store-IsWithin top none s m h k = (h.0, omega arith)

create_check-IsWithin :
    (top now : ℕ) (m : Manager) → IsWithin top m → IsWithin top (create_check now m).0
create_check-IsWithin top now m h =
    create_check-cases (λ r. IsWithin top r.0) now m (sweep-IsWithin top now m h) h

create_commit-IsWithin :
    (top now : ℕ) (s : Session) (m : Manager)
    → 0 < top
    → IsWithin top m
    → IsWithin top (create_commit now s m).0
create_commit-IsWithin top now s m p h =
    let kept = sweep-IsWithin top now m h in
    create_commit-cases (λ r. IsWithin top r.0) now s m (λ down. h) (λ up. kept)
      (λ up room. store-IsWithin top _ s m h (not_full top m p h room))
      (λ up freed.
        store-IsWithin top _ s (sweep now m) kept (not_over top (sweep now m) kept freed))

step-IsWithin :
    (top : ℕ) (e : Event) (m : Manager) → 0 < top → IsWithin top m → IsWithin top (step m e)
unfolding IsWithin step delete sweep_expired close
step-IsWithin top (checked now) m p h = create_check-IsWithin top now m h
step-IsWithin top (committed now s) m p h = create_commit-IsWithin top now s m p h
step-IsWithin top (deleted id) m p h = (h.0, omega (arith, h.1, length-remove id m.sessions))
step-IsWithin top (swept now) m p h = sweep-IsWithin top now m h
step-IsWithin top shut m p h = (h.0, omega arith)

run-IsWithin :
    (top : ℕ) (es : List Event) (m : Manager) → 0 < top → IsWithin top m → IsWithin top (run m es)
unfolding run
run-IsWithin top [] m p h = h
run-IsWithin top (e ∷ es) m p h = run-IsWithin top es (step m e) p (step-IsWithin top e m p h)

-- With a cap, however the critical sections of any number of calls of Create, Get, Delete, Close and
-- the sweeper interleave, and whatever clock each reads, the store never holds more sessions than
-- the cap.
pub len-run :
    (opts : Options) (es : List Event)
    → 0 < opts.max_sessions
    → len (run (new_manager opts) es) ≤ opts.max_sessions
unfolding IsWithin
len-run opts es h = (run-IsWithin opts.max_sessions es (new_manager opts) h (refl, omega arith)).1
