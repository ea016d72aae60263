-- ===== src/Relay/Forward/Runs.antt =====
-- What holds of the forwarded streams of internal/session/forward.go after any sequence of events.
use mathlib.Core.Option.{none-ne-some}
use open_console.Prelude.{
  ◌+◌, ◌<◌, ◌==◌, Bool, List, Option, [], ◌^◌, arith, false, if-cases, leb, length, none, not, refl,
  some, true, ◌||◌, ℕ, ◌↔◌, ◌∙◌, ◌∷◌, ◌≡◌, ◌≤◌,
}
use open_console.Relay.Forward.{
  Forward, Routes, Event, Opened, max_channels, no_routes, lookup_guest_channel,
  lookup_host_channel, find, channel, cut, open_beside, open_forward, close_found, close_forward,
  drop_channel, drop_channels, close_guest_forwards, opens, closes, leaves, host_attached,
  bridge_closed, step, run,
}
use open_console.Relay.Forward.Routed.{IsRouted, cut-IsRouted}
use open_console.Relay.Forward.Opening.{open_beside-IsRouted, next_free}

close_found-IsRouted :
    (h : ℕ) (o : Option Forward) (r : Routes)
    → find h r.forwards ≡ o
    → IsRouted r
    → IsRouted (close_found h o r)
close_found-IsRouted h none r e ok = ok
close_found-IsRouted h (some f) r e ok =
    cut-IsRouted r f.guest f.guest_chan h (ok.to_guest h f e) ok

drop_channel-IsRouted :
    (g c : ℕ) (o : Option ℕ) (r : Routes)
    → channel g c r.channels ≡ o
    → IsRouted r
    → IsRouted (drop_channel g c o r)
drop_channel-IsRouted g c none r e ok = ok
drop_channel-IsRouted g c (some h) r e ok = cut-IsRouted r g c h e ok

drop_channels-IsRouted :
    (g : ℕ) (es : List Forward) (r : Routes) → IsRouted r → IsRouted (drop_channels g es r)
unfolding drop_channels
drop_channels-IsRouted g [] r ok = ok
drop_channels-IsRouted g (e ∷ es) r ok =
    if-cases IsRouted (e.guest == g) _ _
      (λ own. drop_channels-IsRouted g es _ (drop_channel-IsRouted g e.guest_chan _ r refl ok))
      (λ other. drop_channels-IsRouted g es r ok)

close_found-next :
    (h : ℕ) (o : Option Forward) (r : Routes) → (close_found h o r).next_chan ≡ r.next_chan
unfolding cut
close_found-next h none r = refl
close_found-next h (some f) r = refl

-- No operation gives out more than one number.
drop_channels-next :
    (g : ℕ) (es : List Forward) (r : Routes) → (drop_channels g es r).next_chan ≡ r.next_chan
unfolding drop_channels cut
drop_channels-next g [] r = refl
drop_channels-next g (e ∷ es) r =
    if-cases {A = Routes} (λ n. n.next_chan ≡ r.next_chan) (e.guest == g) _ _
      (λ own.
        drop_channels-next g es _ ∙ dropped g e.guest_chan (channel g e.guest_chan r.channels) r)
      (λ other. drop_channels-next g es r)
  where
    dropped : (x y : ℕ) (o : Option ℕ) (n : Routes) → (drop_channel x y o n).next_chan ≡ n.next_chan
    dropped x y none n = refl
    dropped x y (some h) n = refl

-- At most one number is given out.
opens_one :
    (g c : ℕ) (o : Option ℕ) (r : Routes)
    → r.next_chan + 1 < 2 ^ 32
    → (r.next_chan ≤ (open_beside o g c r).0.next_chan)
      × ((open_beside o g c r).0.next_chan ≤ r.next_chan + 1)
opens_one g c (some h) r room = (omega arith, omega arith)
opens_one g c none r room = (omega (arith, next_free r room), omega (arith, next_free r room))

unfoldable pub IsStep : Routes → Routes → Type 0
IsStep r n = IsRouted n × (r.next_chan ≤ n.next_chan) × (n.next_chan ≤ r.next_chan + 1)

kept_number : (r n : Routes) → IsRouted n → n.next_chan ≡ r.next_chan → IsStep r n
unfolding IsStep
kept_number r n ok same = (ok, omega arith, omega arith)

open_beside-IsStep :
    (g c : ℕ) (r : Routes)
    → IsRouted r
    → r.next_chan + 1 < 2 ^ 32
    → IsStep r (open_beside (channel g c r.channels) g c r).0
unfolding IsStep
open_beside-IsStep g c r ok room =
    let one = opens_one g c (channel g c r.channels) r room in
    (open_beside-IsRouted r g c (channel g c r.channels) refl room ok, one.0, one.1)

pub open_forward-IsStep :
    (g c : ℕ) (r : Routes) → IsRouted r → r.next_chan + 1 < 2 ^ 32 → IsStep r (open_forward g c r).0
unfolding open_forward
open_forward-IsStep g c r ok room =
    if-cases {A = Routes × Opened} (λ n. IsStep r n.0) (r.closed || not r.host) _ _
      (λ down. kept_number r r ok refl)
      (λ up.
        if-cases {A = Routes × Opened} (λ n. IsStep r n.0) (leb max_channels (length r.forwards)) _
          _ (λ full. kept_number r r ok refl) (λ free. open_beside-IsStep g c r ok room))

same_tables :
    (r : Routes) (host closed : Bool)
    → IsRouted r
    → IsRouted (record r { host = host; closed = closed })
same_tables r host closed ok = record {
  to_host = ok.to_host;
  to_guest = ok.to_guest;
  given = ok.given;
}

step-IsStep : (e : Event) (r : Routes) → IsRouted r → r.next_chan + 1 < 2 ^ 32 → IsStep r (step r e)
unfolding step close_forward close_guest_forwards
step-IsStep host_attached r ok room =
    if-cases {A = Routes} (IsStep r) (r.closed || r.host) _ _ (λ no. kept_number r r ok refl)
      (λ yes. kept_number r _ (same_tables r true r.closed ok) refl)
step-IsStep bridge_closed r ok room =
    if-cases {A = Routes} (IsStep r) r.closed _ _ (λ again. kept_number r r ok refl)
      (λ first. kept_number r _ (same_tables r false true ok) refl)
step-IsStep (opens g c) r ok room = open_forward-IsStep g c r ok room
step-IsStep (closes h) r ok room =
    kept_number r _ (close_found-IsRouted h (find h r.forwards) r refl ok)
      (close_found-next h (find h r.forwards) r)
step-IsStep (leaves g) r ok room =
    kept_number r _ (drop_channels-IsRouted g r.channels r ok) (drop_channels-next g r.channels r)

pub run-IsRouted :
    (es : List Event) (r : Routes)
    → IsRouted r
    → r.next_chan + length es < 2 ^ 32
    → IsRouted (run r es)
      × (r.next_chan ≤ (run r es).next_chan)
      × ((run r es).next_chan ≤ r.next_chan + length es)
unfolding run IsStep
run-IsRouted [] r ok room = (ok, omega arith, omega arith)
run-IsRouted (e ∷ es) r ok room =
    let one = step-IsStep e r ok (omega (arith, room)) in
    let rest = run-IsRouted es (step r e) one.0 (omega (arith, room, one.1, one.2)) in
    (rest.0, omega (arith, rest.1, one.1), omega (arith, rest.2, one.2))

pub empty-IsRouted : IsRouted no_routes
unfolding find channel
empty-IsRouted = record {
  to_host = λ g c h e. absurd (none-ne-some h e);
  to_guest = λ h f e. absurd (none-ne-some f e);
  given = λ h f e. absurd (none-ne-some f e);
}

pub numberings_agree :
    (es : List Event) (g c h : ℕ)
    → length es < 2 ^ 32
    → (lookup_guest_channel g c (run no_routes es) ≡ some h) ↔ (
        lookup_host_channel h (run no_routes es)
        ≡ some (record { guest = g; guest_chan = c; host_chan = h }))
unfolding lookup_guest_channel lookup_host_channel
numberings_agree es g c h room =
    let ok = (run-IsRouted es no_routes empty-IsRouted (omega (arith, room))).0 in
    (ok.to_host g c h, ok.to_guest h (record { guest = g; guest_chan = c; host_chan = h }))
