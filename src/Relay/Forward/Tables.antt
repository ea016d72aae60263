-- ===== src/Relay/Forward/Tables.antt =====
-- The two tables of internal/session/forward.go as maps: what a lookup gives after a deletion.
use mathlib.Core.Option.{some-injective}
use open_console.Prelude.{
  ◌==◌, ==-refl, ==_iff, Bool-cases, List, [], arith, false, if-cases, inl, inr, length, none, refl,
  some, subst, true, ℕ, ◌∷◌, ◌≡◌, ◌≢◌, ◌≤◌, ◌⊎◌,
}
use open_console.Relay.Forward.{Forward, find, erase, channel, forget, is_at}

other_number : (n h k : ℕ) → h ≢ k → n == k ≡ true → n == h ≡ false
other_number n h k d e = ground arith

-- What is found is under its own number.
pub find-host_chan :
    (h : ℕ) (fs : List Forward) (f : Forward) → find h fs ≡ some f → f.host_chan ≡ h
unfolding find
find-host_chan h [] f = λ e. absurd (ground arith)
find-host_chan h (x ∷ fs) f =
    if-cases (λ o. o ≡ some f → f.host_chan ≡ h) (x.host_chan == h) _ _
      (λ same e.
        subst (λ y. y.host_chan ≡ h) (some-injective x f e) ((==_iff x.host_chan h).0 same))
      (λ differs. find-host_chan h fs f)

pub find-erased : (h : ℕ) (fs : List Forward) → find h (erase h fs) ≡ none
unfolding find erase
find-erased h [] = refl
find-erased h (f ∷ fs) = elim (Bool-cases (f.host_chan == h)) [
  | inl gone ↦ rw gone (find-erased h fs)
  | inr stays ↦ rw (stays, stays) (find-erased h fs)
]

pub find-erase : (h k : ℕ) (fs : List Forward) → h ≢ k → find h (erase k fs) ≡ find h fs
unfolding find erase
find-erase h k [] d = refl
find-erase h k (f ∷ fs) d = elim (Bool-cases (f.host_chan == k)) [
  | inl gone ↦ rw (gone, other_number f.host_chan h k d gone) (find-erase h k fs d)
  | inr stays ↦ rw (stays, find-erase h k fs d) refl
]

pub length-erase : (k : ℕ) (fs : List Forward) → length (erase k fs) ≤ length fs
unfolding erase
length-erase k [] = omega arith
length-erase k (f ∷ fs) = elim (Bool-cases (f.host_chan == k)) [
  | inl gone ↦ rw gone (omega (arith, length-erase k fs))
  | inr stays ↦ rw stays (omega (arith, length-erase k fs))
]

pub channel-forgotten : (g c : ℕ) (es : List Forward) → channel g c (forget g c es) ≡ none
unfolding channel forget
channel-forgotten g c [] = refl
channel-forgotten g c (e ∷ es) = elim (Bool-cases (is_at g c e)) [
  | inl gone ↦ rw gone (channel-forgotten g c es)
  | inr stays ↦ rw (stays, stays) (channel-forgotten g c es)
]

-- Another guest, or another of its channels.
unfoldable pub IsElsewhere : ℕ → ℕ → ℕ → ℕ → Type 0
IsElsewhere g c x y = (g ≢ x) ⊎ (c ≢ y)

other_place :
    (g c x y : ℕ) (e : Forward) → IsElsewhere g c x y → is_at x y e ≡ true → is_at g c e ≡ false
unfolding IsElsewhere
other_place g c x y e (inl d) h = ground arith
other_place g c x y e (inr d) h = ground arith

pub channel-forget :
    (g c x y : ℕ) (es : List Forward)
    → IsElsewhere g c x y
    → channel g c (forget x y es) ≡ channel g c es
unfolding channel forget
channel-forget g c x y [] d = refl
channel-forget g c x y (e ∷ es) d = elim (Bool-cases (is_at x y e)) [
  | inl gone ↦ rw (gone, other_place g c x y e d gone) (channel-forget g c x y es d)
  | inr stays ↦ rw (stays, channel-forget g c x y es d) refl
]

pub same_number : (a b : ℕ) → (a ≡ b) ⊎ (a ≢ b)
same_number a b = elim (Bool-cases (a == b)) [
  | inl same ↦ inl ((==_iff a b).0 same)
  | inr differs ↦ inr (λ e. absurd (ground arith))
]

pub same_place : (g c x y : ℕ) → ((g ≡ x) × (c ≡ y)) ⊎ IsElsewhere g c x y
unfolding IsElsewhere
same_place g c x y = elim (same_number g x) [
  | inr d ↦ inr (inl d)
  | inl e ↦ elim (same_number c y) [ inr d ↦ inr (inr d) | inl k ↦ inl (e, k) ]
]

-- A stream that was just entered, and the others beside it.
pub find-first : (f : Forward) (fs : List Forward) → find f.host_chan (f ∷ fs) ≡ some f
unfolding find
find-first f fs = rw (==-refl f.host_chan) refl

pub find-rest :
    (h : ℕ) (f : Forward) (fs : List Forward) → h ≢ f.host_chan → find h (f ∷ fs) ≡ find h fs
unfolding find
find-rest h f fs d = rw (other_number f.host_chan h f.host_chan d (==-refl f.host_chan)) refl

pub channel-first :
    (f : Forward) (es : List Forward) → channel f.guest f.guest_chan (f ∷ es) ≡ some f.host_chan
unfolding channel
channel-first f es = rw (==-refl f.guest, ==-refl f.guest_chan) refl

at_itself : (f : Forward) → is_at f.guest f.guest_chan f ≡ true
at_itself f = rw (==-refl f.guest, ==-refl f.guest_chan) refl

pub channel-rest :
    (g c : ℕ) (f : Forward) (es : List Forward)
    → IsElsewhere g c f.guest f.guest_chan
    → channel g c (f ∷ es) ≡ channel g c es
unfolding channel
channel-rest g c f es d = rw (other_place g c f.guest f.guest_chan f d (at_itself f)) refl
