-- ===== src/Relay/Forward/Routed.antt =====
-- The two numberings of internal/session/forward.go agree, whatever guests and host do.
use mathlib.Core.Option.{some-injective, none-ne-some}
use open_console.Prelude.{List, ap, inl, inr, some, subst, sym, ℕ, ◌∙◌, ◌≡◌, ◌≢◌, ◌≤◌}
use open_console.Relay.Forward.{Forward, Routes, find, erase, channel, forget, cut}
use open_console.Relay.Forward.Tables.{
  find-erase, find-erased, channel-forget, channel-forgotten, IsElsewhere, same_place, same_number,
}

-- Every number of a guest leads to a stream that leads back to it, and only to one that was given
-- out.
pub record IsRouted (r : Routes) : Type 0 where
  pub to_host :
      (g c h : ℕ)
      → channel g c r.channels ≡ some h
      → find h r.forwards ≡ some (record { guest = g; guest_chan = c; host_chan = h })
  pub to_guest :
      (h : ℕ) (f : Forward)
      → find h r.forwards ≡ some f
      → channel f.guest f.guest_chan r.channels ≡ some h
  pub given : (h : ℕ) (f : Forward) → find h r.forwards ≡ some f → h ≤ r.next_chan

-- Two places with one number toward the host are one place.
one_place :
    (r : Routes) (g c x y h k : ℕ)
    → IsRouted r
    → channel g c r.channels ≡ some h
    → channel x y r.channels ≡ some k
    → IsElsewhere g c x y
    → h ≢ k
unfolding IsElsewhere
one_place r g c x y h k ok d e away same =
    let here = ok.to_host g c h d in
    let there = ok.to_host x y h (e ∙ ap some (sym same)) in
    let one = some-injective _ _ (sym here ∙ there) in
    let guests : g ≡ x = ap (λ f. f.guest) one in
    let chans : c ≡ y = ap (λ f. f.guest_chan) one in
    elim away [ inl differ ↦ differ guests | inr differ ↦ differ chans ]

erased_absurd :
    (k h : ℕ) (fs : List Forward) (f : Forward) → k ≡ h → find k (erase h fs) ≡ some f → ⊥
erased_absurd k h fs f same e =
    none-ne-some f (sym (find-erased h fs) ∙ subst (λ n. find n (erase h fs) ≡ some f) same e)

forgotten_absurd :
    (x y g c k : ℕ) (es : List Forward) → x ≡ g → y ≡ c → channel x y (forget g c es) ≡ some k → ⊥
forgotten_absurd x y g c k es p q e = none-ne-some k (
    sym (channel-forgotten g c es)
    ∙ subst (λ n. channel n c (forget g c es) ≡ some k) p
        (subst (λ n. channel x n (forget g c es) ≡ some k) q e))

-- Two numbers toward the host are at two places.
two_places :
    (r : Routes) (x y g c k h : ℕ)
    → channel x y r.channels ≡ some k
    → channel g c r.channels ≡ some h
    → k ≢ h
    → IsElsewhere x y g c
two_places r x y g c k h there here differs = elim (same_place x y g c) [
  | inr away ↦ away
  | inl (p, q) ↦ absurd (
      differs (
        some-injective k h (
          sym there
          ∙ ap (λ n. channel n y r.channels) p
          ∙ ap (λ n. channel g n r.channels) q
          ∙ here)))
]

pub cut-IsRouted :
    (r : Routes) (g c h : ℕ) → channel g c r.channels ≡ some h → IsRouted r → IsRouted (cut g c h r)
unfolding cut
cut-IsRouted r g c h here ok = record {
  to_host = λ x y k e. elim (same_place x y g c) [
    | inl (same_guest, same_chan) ↦
        absurd (forgotten_absurd x y g c k r.channels same_guest same_chan e)
    | inr away ↦
        let there : channel x y r.channels ≡ some k =
          sym (channel-forget x y g c r.channels away) ∙ e in
        find-erase k h r.forwards (one_place r x y g c k h ok there here away)
        ∙ ok.to_host x y k there
  ];
  to_guest = λ k f e. elim (same_number k h) [
    | inl same ↦ absurd (erased_absurd k h r.forwards f same e)
    | inr differs ↦
        let there = ok.to_guest k f (sym (find-erase k h r.forwards differs) ∙ e) in
        channel-forget f.guest f.guest_chan g c r.channels
          (two_places r f.guest f.guest_chan g c k h there here differs)
        ∙ there
  ];
  given = λ k f e. elim (same_number k h) [
    | inl same ↦ absurd (erased_absurd k h r.forwards f same e)
    | inr differs ↦ ok.given k f (sym (find-erase k h r.forwards differs) ∙ e)
  ];
}
