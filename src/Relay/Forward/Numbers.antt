-- ===== src/Relay/Forward/Numbers.antt =====
-- The numbers of internal/session/forward.go toward the host, and how many streams there are.
use open_console.Prelude.{
  ◌+◌, ◌<◌, ◌==◌, List, Option, [], ◌^◌, ap, arith, false, if-cases, leb, length, none, not, some,
  ◌||◌, ℕ, ◌∷◌, ◌≡◌, ◌≤◌,
}
use open_console.Relay.Forward.{
  Forward, Routes, Event, Opened, max_channels, no_routes, find, channel, cut, next_of, open_beside,
  open_forward, close_found, close_forward, drop_channel, drop_channels, close_guest_forwards,
  opens, closes, leaves, host_attached, bridge_closed, step, run, opened,
}
use open_console.Relay.Forward.Tables.{length-erase}
use open_console.Relay.Forward.Opening.{next_free}
use open_console.Relay.Forward.Runs.{run-IsRouted, empty-IsRouted, open_forward-IsStep, IsStep}

abbrev number_of : Opened → ℕ
number_of (opened h) = h
number_of _ = 0

beside_number :
    (g c h : ℕ) (o : Option ℕ) (r : Routes)
    → r.next_chan + 1 < 2 ^ 32
    → (open_beside o g c r).1 ≡ opened h
    → (h ≡ r.next_chan + 1) × ((open_beside o g c r).0.next_chan ≡ h)
beside_number g c h (some k) r room e = absurd (ground arith)
beside_number g c h none r room e =
    let it : next_of r ≡ h = ap number_of e in (omega (arith, it, next_free r room), it)

open_number :
    (g c h : ℕ) (r : Routes)
    → r.next_chan + 1 < 2 ^ 32
    → (open_forward g c r).1 ≡ opened h
    → (h ≡ r.next_chan + 1) × ((open_forward g c r).0.next_chan ≡ h)
unfolding open_forward
open_number g c h r room =
    if-cases {A = Routes × Opened}
      (λ n. n.1 ≡ opened h → (h ≡ r.next_chan + 1) × (n.0.next_chan ≡ h)) (r.closed || not r.host) _
      _ (λ down e. absurd (ground arith))
      (λ up.
        if-cases {A = Routes × Opened}
          (λ n. n.1 ≡ opened h → (h ≡ r.next_chan + 1) × (n.0.next_chan ≡ h))
          (leb max_channels (length r.forwards)) _ _ (λ full e. absurd (ground arith))
          (λ free. beside_number g c h (channel g c r.channels) r room))

-- Of two streams that are opened, whatever happens before, between and to them, the later one has
-- the greater number toward the host, within 2^32 events: no number is given out twice, so a late
-- frame of a closed stream reaches no other one.
pub opened_later :
    (before between : List Event) (g c x y h k : ℕ)
    → length before + length between + 2 < 2 ^ 32
    → (open_forward g c (run no_routes before)).1 ≡ opened h
    → (open_forward x y (run (open_forward g c (run no_routes before)).0 between)).1 ≡ opened k
    → h < k
unfolding IsStep
opened_later before between g c x y h k room e d =
    let first = run-IsRouted before no_routes empty-IsRouted (omega (arith, room)) in
    let made =
      open_forward-IsStep g c (run no_routes before) first.0 (omega (arith, room, first.2)) in
    let number = open_number g c h (run no_routes before) (omega (arith, room, first.2)) e in
    let next =
      run-IsRouted between (open_forward g c (run no_routes before)).0 made.0
        (omega (arith, room, first.2, made.2)) in
    let later = open_number x y k _ (omega (arith, room, first.2, made.2, next.2)) d in
    omega (arith, number.1, next.1, later.0)

-- The number of streams.
beside_limit :
    (g c : ℕ) (o : Option ℕ) (r : Routes)
    → length r.forwards < max_channels
    → length (open_beside o g c r).0.forwards ≤ max_channels
beside_limit g c (some h) r room = omega arith
beside_limit g c none r room = omega (arith, length-erase (next_of r) r.forwards)

drop_limit :
    (g c : ℕ) (o : Option ℕ) (r : Routes)
    → length (drop_channel g c o r).forwards ≤ length r.forwards
unfolding cut
drop_limit g c none r = omega arith
drop_limit g c (some h) r = length-erase h r.forwards

drops_limit :
    (g : ℕ) (es : List Forward) (r : Routes)
    → length (drop_channels g es r).forwards ≤ length r.forwards
unfolding drop_channels
drops_limit g [] r = omega arith
drops_limit g (e ∷ es) r =
    let d = drop_limit g e.guest_chan (channel g e.guest_chan r.channels) r in
    if-cases {A = Routes} (λ n. length n.forwards ≤ length r.forwards) (e.guest == g) _ _
      (λ own. omega (
        arith,
        d,
        drops_limit g es (drop_channel g e.guest_chan (channel g e.guest_chan r.channels) r),
      ))
      (λ other. drops_limit g es r)

close_limit :
    (h : ℕ) (o : Option Forward) (r : Routes)
    → length (close_found h o r).forwards ≤ length r.forwards
unfolding cut
close_limit h none r = omega arith
close_limit h (some f) r = length-erase h r.forwards

step_limit :
    (e : Event) (r : Routes)
    → length r.forwards ≤ max_channels
    → length (step r e).forwards ≤ max_channels
unfolding step open_forward close_forward close_guest_forwards
step_limit host_attached r h =
    if-cases {A = Routes} (λ n. length n.forwards ≤ max_channels) (r.closed || r.host) _ _ (λ no. h)
      (λ yes. h)
step_limit bridge_closed r h =
    if-cases {A = Routes} (λ n. length n.forwards ≤ max_channels) r.closed _ _ (λ again. h)
      (λ first. h)
step_limit (closes k) r h = omega (arith, h, close_limit k (find k r.forwards) r)
step_limit (leaves g) r h = omega (arith, h, drops_limit g r.channels r)
step_limit (opens g c) r h =
    if-cases {A = Routes × Opened} (λ n. length n.0.forwards ≤ max_channels)
      (r.closed || not r.host) _ _ (λ down. h)
      (λ up.
        if-cases {A = Routes × Opened} (λ n. length n.0.forwards ≤ max_channels)
          (leb max_channels (length r.forwards)) _ _ (λ full. h)
          (λ free. beside_limit g c (channel g c r.channels) r (not_full r free)))
  where
    not_full :
        (n : Routes)
        → leb max_channels (length n.forwards) ≡ false
        → length n.forwards < max_channels
    not_full n e = ground arith

run_limit :
    (es : List Event) (r : Routes)
    → length r.forwards ≤ max_channels
    → length (run r es).forwards ≤ max_channels
unfolding run
run_limit [] r h = h
run_limit (e ∷ es) r h = run_limit es (step r e) (step_limit e r h)

-- A session never has more than 64 forwarded streams open, whatever happens.
pub length-forwards : (es : List Event) → length (run no_routes es).forwards ≤ max_channels
length-forwards es = run_limit es no_routes (omega arith)
