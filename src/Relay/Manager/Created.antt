-- ===== src/Relay/Manager/Created.antt =====
-- What Create of internal/session/manager.go answers with, and Get of the same identifier after it.
use open_console.Prelude.{
  ◌+◌, ◌<◌, All, Bytes, List, Option, Text, ap, arith, false, length, none, refl, some, subst, sym,
  true, ℕ, ◌∙◌, ◌≡◌,
}
use mathlib.Core.Option.{some-injective}
use open_console.Relay.Id.{id_bytes, valid_id, new_id, new_token}
use open_console.Relay.Manager.Cases.{create_check-cases, create_commit-cases}
use open_console.Relay.Id.Shape.{valid_id-new_id}
use open_console.Relay.Manager.{
  create, create_checked, Draws, commit_drawn, session_of, new_session, Manager, Session, Event,
  Result, Error, ok, err, live, lookup, sweep, store_beside, create_commit, run, get_read,
}
use open_console.Relay.Manager.Kept.{IsHeld, Spares, text_eq_refl, not_expired, run-IsHeld}

-- What a successful call returned.
abbrev unwrap : Session → Result Session → Session
unwrap s (ok t) = t
unwrap s (err e) = s

-- The session that the last part of Create answers with is the one it was given, and is then held.
commit-IsHeld :
    (now : ℕ) (s t : Session) (m : Manager)
    → (create_commit now s m).1 ≡ ok t
    → (t ≡ s) × IsHeld s.session_id s (create_commit now s m).0
unfolding IsHeld lookup
commit-IsHeld now s t m =
    create_commit-cases (λ r. r.1 ≡ ok t → (t ≡ s) × IsHeld s.session_id s r.0) now s m
      (λ down e. absurd (ground arith)) (λ up e. absurd (ground arith))
      (λ up room. stored m (lookup s.session_id m.sessions))
      (λ up freed. stored (sweep now m) (lookup s.session_id (live now m.sessions)))
  where
    stored :
        (n : Manager) (o : Option Session)
        → (store_beside o s n).1 ≡ ok t
        → (t ≡ s) × IsHeld s.session_id s (store_beside o s n).0
    stored n (some other) e = absurd (ground arith)
    stored n none e = (sym (ap (unwrap s) e), rw (text_eq_refl s.session_id) refl)

-- What `create` has done when it answers with a session.
pub IsCreated : ℕ → ℕ → Draws → Session → Manager × Result Session → Type 0
IsCreated ttl now d t r =
    (t.expires_at ≡ now + ttl) × (new_id d.id ≡ some t.session_id) × IsHeld t.session_id t r.0

drawn-IsCreated :
    (ttl now : ℕ) (id host guest viewer : Option Text) (t : Session) (m : Manager)
    → (commit_drawn now (session_of ttl now id host guest viewer) m).1 ≡ ok t
    → (t.expires_at ≡ now + ttl)
      × (id ≡ some t.session_id)
      × IsHeld t.session_id t (commit_drawn now (session_of ttl now id host guest viewer) m).0
drawn-IsCreated ttl now none host guest viewer t m e = absurd (ground arith)
drawn-IsCreated ttl now (some i) none guest viewer t m e = absurd (ground arith)
drawn-IsCreated ttl now (some i) (some h) none viewer t m e = absurd (ground arith)
drawn-IsCreated ttl now (some i) (some h) (some g) none t m e = absurd (ground arith)
drawn-IsCreated ttl now (some i) (some h) (some g) (some v) t m e =
    let made =
      commit-IsHeld now
        (record {
          session_id = i;
          host_token = h;
          guest_token = g;
          viewer_token = v;
          created_at = now;
          expires_at = now + ttl;
        })
        t m e in
    (
      ap (λ x. x.expires_at) made.0,
      ap (λ x. some x.session_id) (sym made.0),
      subst
          (λ x.
            IsHeld x.session_id x
              (create_commit now
                (record {
                  session_id = i;
                  host_token = h;
                  guest_token = g;
                  viewer_token = v;
                  created_at = now;
                  expires_at = now + ttl;
                })
                m).0)
          (sym made.0) made.1,
    )

checked-IsCreated :
    (ttl now : ℕ) (d : Draws) (t : Session) (m : Manager) (o : Option Error)
    → m.ttl ≡ ttl
    → (create_checked now d (m, o)).1 ≡ ok t
    → IsCreated ttl now d t (create_checked now d (m, o))
unfolding IsCreated new_session
checked-IsCreated ttl now d t m (some x) h e = absurd (ground arith)
checked-IsCreated ttl now d t m none h e =
    subst
      (λ l.
        (t.expires_at ≡ now + l)
        × (new_id d.id ≡ some t.session_id)
        × IsHeld t.session_id t (create_checked now d (m, none)).0)
      h
      (drawn-IsCreated m.ttl now (new_id d.id) (new_token d.host) (new_token d.guest)
        (new_token d.viewer) t m e)

create-IsCreated :
    (now : ℕ) (d : Draws) (t : Session) (m : Manager)
    → (create false now d m).1 ≡ ok t
    → IsCreated m.ttl now d t (create false now d m)
unfolding create
create-IsCreated now d t m =
    create_check-cases
      (λ r. (create_checked now d r).1 ≡ ok t → IsCreated m.ttl now d t (create_checked now d r))
      now m (checked-IsCreated m.ttl now d t (sweep now m) _ refl)
      (checked-IsCreated m.ttl now d t m _ refl)

read_held :
    (later : ℕ) (s : Session) (m : Manager)
    → valid_id s.session_id ≡ true
    → later < s.expires_at
    → IsHeld s.session_id s m
    → get_read false later s.session_id m ≡ ok s
unfolding IsHeld get_read
read_held later s m v h k = rw (v, k, not_expired s later h) refl

made_valid :
    (d : Draws) (t : Session) (b : Bytes)
    → d.id ≡ some b
    → length b ≡ id_bytes
    → new_id d.id ≡ some t.session_id
    → valid_id t.session_id ≡ true
made_valid d t b e h k =
    let v = valid_id-new_id b h in
    let same : some v.0 ≡ some t.session_id = sym v.1 ∙ ap new_id (sym e) ∙ k in
    subst (λ z. valid_id z ≡ true) (some-injective _ _ same) v.2

-- A session that Create answers with, from sixteen random bytes for its identifier, is what Get
-- answers with under that identifier until its TTL has passed: whatever other critical sections
-- run between, in any order, as long as none reads a clock past the expiry, deletes this
-- identifier or closes the manager. In particular no later Create takes its place.
pub get_read-create :
    (now later : ℕ) (d : Draws) (b : Bytes) (s : Session) (m : Manager) (es : List Event)
    → d.id ≡ some b
    → length b ≡ id_bytes
    → (create false now d m).1 ≡ ok s
    → All (Spares s.session_id s) es
    → later < now + m.ttl
    → get_read false later s.session_id (run (create false now d m).0 es) ≡ ok s
unfolding IsCreated
get_read-create now later d b s m es e n k p h =
    let made = create-IsCreated now d s m k in
    read_held later s _ (made_valid d s b e n made.1) (omega (arith, h, made.0))
      (run-IsHeld s.session_id s es _ p made.2)
