-- ===== src/Relay/Bridge/Replay.antt =====
-- What every guest of internal/session/bridge.go sees of the host's output, replay included.
use open_console.Prelude.{
  ◌++◌, ◌==◌, All, All-append, Bytes, List, Option, [], ap, append-nil, append_assoc, ap₂, arith,
  if-cases, length, ltb, map, none, not, refl, some, subst, sym, ◌||◌, ℕ, ◌∙◌, ◌∷◌, ◌≡◌,
}
use open_console.Relay.Ring.{FrameRing, frames_of, add}
use open_console.Relay.Ring.Latest.{latest, solid, add_all-latest}
use open_console.Relay.Bridge.{
  Guest, TermFrame, Bridge, data_frame, resize_frame, close_frame, offer_all,
}
use open_console.Relay.Ring.{add_all, new_frame_ring}
use open_console.Relay.Bridge.{
  scrollback_bytes, keep, hello, attach_guest, write, write_next, detach,
}
use open_console.Relay.Bridge.Watching.{shown, shown-append, shown-map, seen, waiting}
use open_console.Relay.Bridge.Views.{
  IsView, whole, doubled, grow, solid-append, solid-All, solid-solid, latest-end, latest-All,
  latest-newest,
}

-- The guest's view of the output `h`, with the frame that it is about to be handed.
unfoldable pub IsWatched : List Bytes → Option TermFrame → Guest → Type 0
IsWatched h o g = IsView (solid h) (solid (seen g ++ shown (waiting o)))

pub All-map {ℓ κ} :
    {A : Type ℓ} (P Q : A → Type κ) (xs : List A) → ((x : A) → P x → Q x) → All P xs → All Q xs
All-map P Q [] f h = tt
All-map P Q (x ∷ xs) f h = (f x h.0, All-map P Q xs f h.1)

pub add_all-append :
    (ps : List Bytes) (r : FrameRing) (p : Bytes) → add_all r (ps ++ p ∷ []) ≡ add (add_all r ps) p
unfolding add_all
add_all-append [] r p = refl
add_all-append (x ∷ ps) r p = add_all-append ps (add r x) p

-- The loop takes a frame in: each view grows by it.
pub noted :
    (h : List Bytes) (f : TermFrame) (g : Guest)
    → IsWatched h none g
    → IsWatched (h ++ shown (f ∷ [])) (some f) g
unfolding IsWatched shown
noted h f g v =
    rw (solid-append h (shown (f ∷ [])), solid-append (seen g) (shown (f ∷ [])))
      (grow _ _ (solid (shown (f ∷ [])))
        (subst (λ l. IsView (solid h) (solid l)) (append-nil (seen g)) v))

-- A guest is handed the frame: its view stays.
handed :
    (h : List Bytes) (f : TermFrame) (g : Guest)
    → IsWatched h (some f) g
    → IsWatched h none (record g { out = g.out ++ f ∷ [] })
unfolding IsWatched seen
handed h f g v =
    subst (λ l. IsView (solid h) (solid l))
      (sym (shown-append (g.sent ++ g.out) (f ∷ []))
        ∙ ap shown (append_assoc g.sent g.out (f ∷ []))
        ∙ sym (append-nil _))
      v

pub offer_all-views :
    (h : List Bytes) (f : TermFrame) (gs : List Guest)
    → All (IsWatched h (some f)) gs
    → All (IsWatched h none) (offer_all f gs)
unfolding offer_all
offer_all-views h f [] v = tt
offer_all-views h f (g ∷ gs) v =
    if-cases (λ o. All (IsWatched h none) (keep o (offer_all f gs))) (ltb (length g.out) 256) _ _
      (λ room. (handed h f g v.0, offer_all-views h f gs v.1)) (λ full. offer_all-views h f gs v.1)

seen-write_next : (g : Guest) (fs : List TermFrame) → g.out ≡ fs → seen (write_next g fs) ≡ seen g
unfolding seen
seen-write_next g [] e = refl
seen-write_next g (f ∷ fs) e =
    ap shown (append_assoc g.sent (f ∷ []) fs ∙ ap (λ l. g.sent ++ l) (sym e))

pub write-views :
    (h : List Bytes) (o : Option TermFrame) (id : ℕ) (gs : List Guest)
    → All (IsWatched h o) gs
    → All (IsWatched h o) (write id gs)
unfolding write IsWatched
write-views h o id [] v = tt
write-views h o id (g ∷ gs) v =
    if-cases (All (IsWatched h o)) (g.id == id) _ _
      (λ own. (
        subst (λ l. IsView (solid h) (solid (l ++ shown (waiting o))))
            (sym (seen-write_next g g.out refl)) v.0,
        v.1,
      ))
      (λ other. (v.0, write-views h o id gs v.1))

pub detach-views :
    (h : List Bytes) (o : Option TermFrame) (id : ℕ) (gs : List Guest)
    → All (IsWatched h o) gs
    → All (IsWatched h o) (detach id gs)
unfolding detach
detach-views h o id [] v = tt
detach-views h o id (g ∷ gs) v =
    if-cases (All (IsWatched h o)) (g.id == id) _ _ (λ own. detach-views h o id gs v.1)
      (λ other. (v.0, detach-views h o id gs v.1))

-- What the ring holds after the output `h`, as a view of it.
backlog : List Bytes → List Bytes
backlog h = latest scrollback_bytes (solid h)

solid-backlog : (h : List Bytes) → solid (backlog h) ≡ backlog h
unfolding backlog
solid-backlog h = solid-solid _ (latest-All scrollback_bytes (solid h) (solid-All h))

quiet-IsView : (h : List Bytes) → IsView (solid h) (solid (backlog h ++ []))
unfolding backlog
quiet-IsView h =
    let old = latest-end scrollback_bytes (solid h) in
    subst (IsView (solid h)) (sym (ap solid (append-nil (backlog h)) ∙ solid-backlog h))
      (whole old.0 old.1)

-- A guest that joins between the two halves of the loop gets the newest frame twice.
late-IsView :
    (h : List Bytes) (p : Bytes)
    → IsView (solid (h ++ p ∷ [])) (solid (backlog (h ++ p ∷ []) ++ p ∷ []))
unfolding backlog solid
late-IsView h [] =
    subst (IsView (solid (h ++ [] ∷ [])))
      (ap solid (append-nil (backlog (h ++ [] ∷ [])))
        ∙ sym (append-nil _)
        ∙ sym (solid-append (backlog (h ++ [] ∷ [])) ([] ∷ [])))
      (quiet-IsView (h ++ [] ∷ []))
late-IsView h (b ∷ q) =
    let last : solid (h ++ (b ∷ q) ∷ []) ≡ solid h ++ (b ∷ q) ∷ [] =
      solid-append h ((b ∷ q) ∷ []) in
    let newest = latest-newest scrollback_bytes (solid h) (b ∷ q) in
    doubled newest.0 newest.1 [] (b ∷ q)
      (solid-append (backlog (h ++ (b ∷ q) ∷ [])) ((b ∷ q) ∷ [])
        ∙ ap (λ l. l ++ (b ∷ q) ∷ [])
            (solid-backlog (h ++ (b ∷ q) ∷ []) ∙ ap (latest scrollback_bytes) last ∙ newest.2)
        ∙ append_assoc newest.1 ((b ∷ q) ∷ []) ((b ∷ q) ∷ []))
      (sym (append_assoc newest.0 newest.1 ((b ∷ q) ∷ []))
        ∙ ap (λ l. l ++ (b ∷ q) ∷ []) newest.3
        ∙ sym last)

-- The frame between the two halves is the newest of the output.
abbrev pub IsNewest : List Bytes → Option TermFrame → Type 0
IsNewest h (some (data_frame p)) = (h0 : List Bytes) × (h0 ++ p ∷ [] ≡ h)
IsNewest h _ = Unit

join-IsView :
    (h : List Bytes) (o : Option TermFrame)
    → IsNewest h o
    → IsView (solid h) (solid (backlog h ++ shown (waiting o)))
unfolding shown
join-IsView h none n = quiet-IsView h
join-IsView h (some (resize_frame c r)) n = quiet-IsView h
join-IsView h (some (close_frame x)) n = quiet-IsView h
join-IsView h (some (data_frame p)) n =
    subst (λ l. IsView (solid l) (solid (backlog l ++ p ∷ []))) n.1 (late-IsView n.0 p)

pub shown-hello : (b : Bridge) → shown (hello b) ≡ []
unfolding shown
shown-hello b =
    if-cases (λ l. shown l ≡ []) (not (b.cols == 0) || not (b.rows == 0)) _ _ (λ sized. refl)
      (λ unsized. refl)

-- The ring's contents, the frame in between, and the views, after the output `h`.
pub record IsFollowed (h : List Bytes) (b : Bridge) : Type 0 where
  pub kept : b.scroll ≡ add_all (new_frame_ring scrollback_bytes) h
  pub newest : IsNewest h b.pending
  pub views : All (IsWatched h b.pending) b.guests

replayed :
    (h : List Bytes) (b : Bridge)
    → b.scroll ≡ add_all (new_frame_ring scrollback_bytes) h
    → shown ((hello b ++ map data_frame (frames_of b.scroll)) ++ []) ≡ backlog h
unfolding backlog
replayed h b kept =
    ap shown (append-nil (hello b ++ map data_frame (frames_of b.scroll)))
    ∙ shown-append (hello b) (map data_frame (frames_of b.scroll))
    ∙ ap₂ ◌++◌ (shown-hello b) (shown-map (frames_of b.scroll))
    ∙ ap frames_of kept
    ∙ (add_all-latest scrollback_bytes h (omega arith)).0

pub joined :
    (h : List Bytes) (b : Bridge) (id : ℕ) → IsFollowed h b → IsFollowed h (attach_guest id b)
unfolding attach_guest IsWatched seen
joined h b id ok =
    if-cases (IsFollowed h) (b.closed || not b.host) _ _ (λ refused. ok)
      (λ open_now. record {
        kept = ok.kept;
        newest = ok.newest;
        views = All-append _ b.guests _ ok.views (
          subst (λ l. IsView (solid h) (solid (l ++ shown (waiting b.pending))))
              (sym (replayed h b ok.kept)) (join-IsView h b.pending ok.newest),
          tt,
        );
      })
