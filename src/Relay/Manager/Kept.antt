-- ===== src/Relay/Manager/Kept.antt =====
-- A session of internal/session/manager.go lasts until it expires, is deleted, or the manager closes.
use open_console.Prelude.{
  ◌<◌, All, Bool, Bool-cases, List, Option, Text, [], arith, false, if◌then◌else◌, inl, inr,
  key_differs, lt→ltb, none, refl, some, subst, sym, text_eq, text_eq_iff, true, ℕ, ◌∙◌, ◌∷◌, ◌≡◌,
}
use mathlib.Core.Option.{some-injective}
use open_console.Relay.Manager.Cases.{create_check-cases, create_commit-cases}
use open_console.Relay.Manager.{
  Manager, Session, Event, expired, checked, committed, deleted, swept, shut, live, remove, lookup,
  sweep, store, store_beside, delete, sweep_expired, close, step, run,
}

pub text_eq_refl : (s : Text) → text_eq s s ≡ true
text_eq_refl s = (text_eq_iff s s).1 refl

-- The lookup passes what is taken out under another key, and what has expired.
lookup-remove :
    (id other : Text) (l : List (Text × Session))
    → text_eq id other ≡ false
    → lookup id (remove other l) ≡ lookup id l
unfolding lookup remove
lookup-remove id other [] h = refl
lookup-remove id other ((key, s) ∷ rest) h = elim (Bool-cases (text_eq key other)) [
  | inl gone_key ↦
      rw (gone_key, key_differs key id other h gone_key) (lookup-remove id other rest h)
  | inr stays ↦ rw (stays, lookup-remove id other rest h) refl
]

pub not_expired : (x : Session) (now : ℕ) → now < x.expires_at → expired x now ≡ false
not_expired x now h = rw (lt→ltb now x.expires_at h) refl

held_expired :
    (x s : Session) (now : ℕ) → now < s.expires_at → some x ≡ some s → expired x now ≡ true → ⊥
held_expired x s now h k gone_now =
    let held : expired s now ≡ true =
      subst (λ z. expired z now ≡ true) (some-injective x s k) gone_now in
    let lives : expired s now ≡ false = not_expired s now h in ground arith

pub lookup-live :
    (id : Text) (now : ℕ) (s : Session) (l : List (Text × Session))
    → now < s.expires_at
    → lookup id l ≡ some s
    → lookup id (live now l) ≡ some s
unfolding lookup live
lookup-live id now s [] h k = k
lookup-live id now s ((key, x) ∷ rest) h k =
    first (text_eq key id) (expired x now) refl refl (lookup-live id now s rest h) k
  where
    first :
        (is_key is_gone : Bool)
        → text_eq key id ≡ is_key
        → expired x now ≡ is_gone
        → (lookup id rest ≡ some s → lookup id (live now rest) ≡ some s)
        → (if is_key then some x else lookup id rest) ≡ some s
        → lookup id (if is_gone then live now rest else (key, x) ∷ live now rest) ≡ some s
    first true true e g later found = absurd (held_expired x s now h found g)
    first true false e g later found = rw e found
    first false true e g later found = later found
    first false false e g later found = rw e (later found)

-- The session that an identifier leads to.
unfoldable pub IsHeld : Text → Session → Manager → Type 0
IsHeld id s m = lookup id m.sessions ≡ some s

-- What may run without ending the session: nothing that reads a clock past its expiry, deletes its
-- identifier, or closes the manager.
unfoldable pub Spares : Text → Session → Event → Type 0
Spares id s (checked now) = now < s.expires_at
Spares id s (committed now other) = now < s.expires_at
Spares id s (deleted other) = text_eq id other ≡ false
Spares id s (swept now) = now < s.expires_at
Spares id s shut = ⊥

-- A new session never takes the place of one that is held.
store-IsHeld : (id : Text) (s x : Session) (m : Manager) → IsHeld id s m → IsHeld id s (store x m).0
unfolding IsHeld lookup
store-IsHeld id s x m h = beside (lookup x.session_id m.sessions) refl
  where
    beside :
        (o : Option Session)
        → lookup x.session_id m.sessions ≡ o
        → IsHeld id s (store_beside o x m).0
    beside (some other) e = h
    beside none e = elim (Bool-cases (text_eq x.session_id id)) [
      | inl same ↦
          let free : lookup id m.sessions ≡ none =
            subst (λ z. lookup z m.sessions ≡ none) ((text_eq_iff x.session_id id).0 same) e in
          let clash : none ≡ some s = sym free ∙ h in absurd (ground arith)
      | inr differs ↦ rw differs h
    ]

step-IsHeld :
    (id : Text) (s : Session) (e : Event) (m : Manager)
    → Spares id s e
    → IsHeld id s m
    → IsHeld id s (step m e)
unfolding Spares IsHeld step delete sweep_expired close
step-IsHeld id s (checked now) m p h =
    create_check-cases (λ r. IsHeld id s r.0) now m (lookup-live id now s m.sessions p h) h
step-IsHeld id s (committed now x) m p h =
    let kept = lookup-live id now s m.sessions p h in
    create_commit-cases (λ r. IsHeld id s r.0) now x m (λ down. h) (λ up. kept)
      (λ up room. store-IsHeld id s x m h) (λ up freed. store-IsHeld id s x (sweep now m) kept)
step-IsHeld id s (deleted other) m p h = lookup-remove id other m.sessions p ∙ h
step-IsHeld id s (swept now) m p h = lookup-live id now s m.sessions p h
step-IsHeld id s shut m p h = absurd p

pub run-IsHeld :
    (id : Text) (s : Session) (es : List Event) (m : Manager)
    → All (Spares id s) es
    → IsHeld id s m
    → IsHeld id s (run m es)
unfolding run
run-IsHeld id s [] m p h = h
run-IsHeld id s (e ∷ es) m p h = run-IsHeld id s es (step m e) p.1 (step-IsHeld id s e m p.0 h)
