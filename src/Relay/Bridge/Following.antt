-- ===== src/Relay/Bridge/Following.antt =====
-- The steps of internal/session/bridge.go keep every guest's view of the host's output.
use open_console.Prelude.{
  ◌++◌, All, Bool, Bytes, List, Option, [], ap, append-nil, append_assoc, arith, false,
  if◌then◌else◌, if-cases, none, refl, some, subst, sym, true, ◌||◌, ◌∙◌, ◌∷◌, ◌≡◌,
}
use open_console.Relay.Ring.{add}
use open_console.Relay.Bridge.{
  Guest, TermFrame, Bridge, Event, data_frame, resize_frame, close_frame, is_reading, received,
  step,
}
use open_console.Relay.Ring.{add_all, new_frame_ring}
use open_console.Relay.Bridge.{
  scrollback_bytes, note, broadcast, fan_out_pending, run, new_bridge, is_idle,
}
use open_console.Relay.Bridge.{hosted, fanned_out, ended, joins, writes, leaves}
use open_console.Relay.Bridge.Watching.{shown, taken, taken_all}
use open_console.Relay.Bridge.Replay.{
  noted, offer_all-views, write-views, detach-views, add_all-append, joined, All-map, IsWatched,
  IsFollowed,
}

-- The views when nothing is in between, and a frame comes in.
noted-All :
    (h : List Bytes) (f : TermFrame) (o : Option TermFrame) (gs : List Guest)
    → is_idle o ≡ true
    → All (IsWatched h o) gs
    → All (IsWatched (h ++ shown (f ∷ [])) (some f)) gs
noted-All h f none gs e v = All-map _ _ gs (noted h f) v
noted-All h f (some x) gs e v = absurd (ground arith)

note-IsFollowed :
    (h : List Bytes) (f : TermFrame) (b : Bridge)
    → is_idle b.pending ≡ true
    → IsFollowed h b
    → IsFollowed (h ++ shown (f ∷ [])) (note f b)
unfolding note shown
note-IsFollowed h (data_frame p) b idle ok = record {
  kept = ap (λ r. add r p) ok.kept ∙ sym (add_all-append h (new_frame_ring scrollback_bytes) p);
  newest = (h, refl);
  views = noted-All h (data_frame p) b.pending b.guests idle ok.views;
}
note-IsFollowed h (resize_frame c r) b idle ok = record {
  kept = ok.kept ∙ ap (add_all (new_frame_ring scrollback_bytes)) (sym (append-nil h));
  newest = tt;
  views = noted-All h (resize_frame c r) b.pending b.guests idle ok.views;
}
note-IsFollowed h (close_frame x) b idle ok = record {
  kept = ok.kept ∙ ap (add_all (new_frame_ring scrollback_bytes)) (sym (append-nil h));
  newest = tt;
  views = noted-All h (close_frame x) b.pending b.guests idle ok.views;
}

reading_idle : (b : Bridge) → is_reading b ≡ true → is_idle b.pending ≡ true
reading_idle b e = ground arith

fan_out-IsFollowed :
    (h : List Bytes) (o : Option TermFrame) (b : Bridge)
    → b.pending ≡ o
    → IsFollowed h b
    → IsFollowed h (fan_out_pending o b)
unfolding broadcast
fan_out-IsFollowed h none b e ok = ok
fan_out-IsFollowed h (some f) b e ok = record {
  kept = ok.kept;
  newest = tt;
  views = offer_all-views h f b.guests (subst (λ o. All (IsWatched h o) b.guests) e ok.views);
}

same_output : (h : List Bytes) (b : Bridge) → IsFollowed h b → IsFollowed (h ++ []) b
same_output h b ok = subst (λ l. IsFollowed l b) (sym (append-nil h)) ok

step-IsFollowed :
    (h : List Bytes) (e : Event) (b : Bridge)
    → IsFollowed h b
    → IsFollowed (h ++ taken b e) (step b e)
unfolding step
step-IsFollowed h (hosted cols rows) b ok = same_output h _ (
    if-cases (IsFollowed h) (b.closed || b.host) _ _ (λ refused. ok)
      (λ free. record { kept = ok.kept; newest = ok.newest; views = ok.views }))
step-IsFollowed h (received f) b ok = take_in (is_reading b) refl
  where
    take_in :
        (r : Bool)
        → is_reading b ≡ r
        → IsFollowed (h ++ (if r then shown (f ∷ []) else [])) (if r then note f b else b)
    take_in true e = note-IsFollowed h f b (reading_idle b e) ok
    take_in false e = same_output h b ok
step-IsFollowed h fanned_out b ok = same_output h _ (fan_out-IsFollowed h b.pending b refl ok)
step-IsFollowed h ended b ok = same_output h _ (
    if-cases (IsFollowed h) b.closed _ _ (λ again. ok)
      (λ first. record { kept = ok.kept; newest = ok.newest; views = tt }))
step-IsFollowed h (joins id) b ok = same_output h _ (joined h b id ok)
step-IsFollowed h (writes id) b ok = same_output h _ (record {
  kept = ok.kept;
  newest = ok.newest;
  views = write-views h b.pending id b.guests ok.views;
})
step-IsFollowed h (leaves id) b ok = same_output h _ (record {
  kept = ok.kept;
  newest = ok.newest;
  views = detach-views h b.pending id b.guests ok.views;
})

run-IsFollowed :
    (es : List Event) (h : List Bytes) (b : Bridge)
    → IsFollowed h b
    → IsFollowed (h ++ taken_all b es) (run b es)
unfolding run taken_all
run-IsFollowed [] h b ok = same_output h b ok
run-IsFollowed (e ∷ es) h b ok =
    subst (λ l. IsFollowed l (run (step b e) es))
      (append_assoc h (taken b e) (taken_all (step b e) es))
      (run-IsFollowed es (h ++ taken b e) (step b e) (step-IsFollowed h e b ok))

new_bridge-IsFollowed : IsFollowed [] new_bridge
unfolding add_all
new_bridge-IsFollowed = record { kept = refl; newest = tt; views = tt }

-- However the host's loop, the guests and their writers interleave: what each attached guest was
-- sent or has in its queue, replay included, with the frame that the host's loop has yet to hand
-- out, is an end of the host's output, whole and in order, its empty frames aside; or it is such
-- an end with one frame doubled. No guest misses a frame after the one at which it starts.
pub guests_watch :
    (es : List Event)
    → All
        (IsWatched (taken_all new_bridge es) (run new_bridge es).pending)
        (run new_bridge es).guests
guests_watch es = (run-IsFollowed es [] new_bridge new_bridge-IsFollowed).views
