-- ===== src/Relay/Forward/Opening.antt =====
-- Opening a stream keeps the two numberings of internal/session/forward.go in agreement.
use mathlib.Core.Option.{some-injective, none-ne-some}
use open_console.Prelude.{
  ◌+◌, ◌<◌, List, Option, ◌^◌, ap, ap₂, arith, inl, inr, none, some, subst, suc, sym, ℕ, ◌∙◌, ◌∷◌,
  ◌≡◌, ◌≢◌,
}
use open_console.Relay.Forward.{Forward, Routes, find, erase, channel, next_of, open_beside}
use open_console.Relay.Forward.Tables.{
  find-erase, IsElsewhere, same_place, same_number, find-first, find-rest, channel-first,
  channel-rest,
}
use open_console.Relay.Forward.Routed.{IsRouted}

-- The number that the next stream gets, as long as there is one left.
pub next_free : (r : Routes) → r.next_chan + 1 < 2 ^ 32 → next_of r ≡ suc r.next_chan
next_free r h = ground arith

given_before :
    (r : Routes) (k : ℕ) (f : Forward)
    → IsRouted r
    → r.next_chan + 1 < 2 ^ 32
    → find k r.forwards ≡ some f
    → k ≢ next_of r
given_before r k f ok room e same =
    let low = ok.given k f e in
    let next = next_free r room in absurd (omega (arith, low, next, same))

-- The place of a stream that is open is not the place of one that is not.
open-IsElsewhere :
    (r : Routes) (x y g c k : ℕ)
    → channel x y r.channels ≡ some k
    → channel g c r.channels ≡ none
    → IsElsewhere x y g c
open-IsElsewhere r x y g c k there here = elim (same_place x y g c) [
  | inr away ↦ away
  | inl (p, q) ↦ absurd (
      none-ne-some k (
        sym here
        ∙ ap (λ n. channel n c r.channels) (sym p)
        ∙ ap (λ n. channel x n r.channels) (sym q)
        ∙ there))
]

new_to_host :
    (new : Forward) (x y k : ℕ) (es fs : List Forward)
    → x ≡ new.guest
    → y ≡ new.guest_chan
    → channel x y (new ∷ es) ≡ some k
    → find k (new ∷ fs) ≡ some (record { guest = x; guest_chan = y; host_chan = k })
new_to_host new x y k es fs p q e =
    let number : new.host_chan ≡ k =
      some-injective _ _
        (sym (channel-first new es) ∙ ap₂ (λ a b. channel a b (new ∷ es)) (sym p) (sym q) ∙ e) in
    subst (λ n. find n (new ∷ fs) ≡ some (record { guest = x; guest_chan = y; host_chan = n }))
      number
      (find-first new fs
        ∙ ap₂ (λ a b. some (record { guest = a; guest_chan = b; host_chan = new.host_chan }))
            (sym p) (sym q))

new_to_guest :
    (new f : Forward) (k : ℕ) (es fs : List Forward)
    → k ≡ new.host_chan
    → find k (new ∷ fs) ≡ some f
    → channel f.guest f.guest_chan (new ∷ es) ≡ some k
new_to_guest new f k es fs same e =
    let it : new ≡ f =
      some-injective _ _ (sym (find-first new fs) ∙ ap (λ n. find n (new ∷ fs)) (sym same) ∙ e) in
    subst (λ x. channel x.guest x.guest_chan (new ∷ es) ≡ some k) it
      (channel-first new es ∙ ap some (sym same))

pub open_beside-IsRouted :
    (r : Routes) (g c : ℕ) (o : Option ℕ)
    → channel g c r.channels ≡ o
    → r.next_chan + 1 < 2 ^ 32
    → IsRouted r
    → IsRouted (open_beside o g c r).0
open_beside-IsRouted r g c (some h) here room ok = ok
open_beside-IsRouted r g c none here room ok =
    let new : Forward = record { guest = g; guest_chan = c; host_chan = next_of r } in
    record {
      to_host = λ x y k e. elim (same_place x y g c) [
        | inl (p, q) ↦ new_to_host new x y k r.channels (erase (next_of r) r.forwards) p q e
        | inr away ↦
            let there = sym (channel-rest x y new r.channels away) ∙ e in
            let found = ok.to_host x y k there in
            let old = given_before r k _ ok room found in
            find-rest k new (erase (next_of r) r.forwards) old
            ∙ find-erase k (next_of r) r.forwards old
            ∙ found
      ];
      to_guest = λ k f e. elim (same_number k (next_of r)) [
        | inl same ↦ new_to_guest new f k r.channels (erase (next_of r) r.forwards) same e
        | inr old ↦
            let found =
              sym (find-erase k (next_of r) r.forwards old)
              ∙ sym (find-rest k new (erase (next_of r) r.forwards) old)
              ∙ e in
            let there = ok.to_guest k f found in
            channel-rest f.guest f.guest_chan new r.channels
              (open-IsElsewhere r f.guest f.guest_chan g c k there here)
            ∙ there
      ];
      given = λ k f e. elim (same_number k (next_of r)) [
        | inl same ↦ omega (arith, same)
        | inr old ↦
            let found =
              sym (find-erase k (next_of r) r.forwards old)
              ∙ sym (find-rest k new (erase (next_of r) r.forwards) old)
              ∙ e in
            omega (arith, ok.given k f found, next_free r room)
      ];
    }
