-- ===== src/Relay/Bridge/Views.antt =====
-- Ends of the host's output, for internal/session/bridge.go, and what the ring keeps of them.
use open_console.Prelude.{
  ◌++◌, ◌<◌, All, Bytes, List, [], ap, append_assoc, arith, if-cases, length, refl, sym, ℕ, ◌∙◌,
  ◌∷◌, ◌≡◌,
}
use open_console.Relay.Ring.Latest.{latest, solid, fits}

-- `v` is an end of `h`, or one with a single frame doubled.
pub data IsView (h v : List Bytes) : Type 0 where
  whole : (pre : List Bytes) → pre ++ v ≡ h → IsView h v
  doubled :
      (pre xs ys : List Bytes) (p : Bytes)
      → v ≡ xs ++ p ∷ p ∷ ys
      → pre ++ (xs ++ p ∷ ys) ≡ h
      → IsView h v

pub grow : (h v d : List Bytes) → IsView h v → IsView (h ++ d) (v ++ d)
grow h v d (whole pre e) = whole pre (sym (append_assoc pre v d) ∙ ap (λ l. l ++ d) e)
grow h v d (doubled pre xs ys p e k) =
    doubled pre xs (ys ++ d) p (ap (λ l. l ++ d) e ∙ append_assoc xs (p ∷ p ∷ ys) d) (
      ap (λ l. pre ++ l) (sym (append_assoc xs (p ∷ ys) d))
      ∙ sym (append_assoc pre (xs ++ p ∷ ys) d)
      ∙ ap (λ l. l ++ d) k)

pub solid-append : (xs ys : List Bytes) → solid (xs ++ ys) ≡ solid xs ++ solid ys
unfolding solid
solid-append [] ys = refl
solid-append ([] ∷ xs) ys = solid-append xs ys
solid-append ((b ∷ x) ∷ xs) ys = ap (λ l. (b ∷ x) ∷ l) (solid-append xs ys)

pub solid-All : (xs : List Bytes) → All (λ f. 0 < length f) (solid xs)
unfolding solid
solid-All [] = tt
solid-All ([] ∷ xs) = solid-All xs
solid-All ((b ∷ x) ∷ xs) = (omega arith, solid-All xs)

pub solid-solid : (xs : List Bytes) → All (λ f. 0 < length f) xs → solid xs ≡ xs
unfolding solid
solid-solid [] h = refl
solid-solid ([] ∷ xs) h = absurd (omega (arith, h.0))
solid-solid ((b ∷ x) ∷ xs) h = ap (λ l. (b ∷ x) ∷ l) (solid-solid xs h.1)

pub latest-end : (m : ℕ) (xs : List Bytes) → (pre : List Bytes) × (pre ++ latest m xs ≡ xs)
unfolding latest
latest-end m [] = ([], refl)
latest-end m (x ∷ xs) =
    if-cases (λ l. (pre : List Bytes) × (pre ++ l ≡ x ∷ xs)) (fits m (x ∷ xs)) _ _
      (λ small. ([], refl))
      (λ large. let rest = latest-end m xs in (x ∷ rest.0, ap (λ l. x ∷ l) rest.1))

pub latest-All :
    (m : ℕ) (xs : List Bytes) → All (λ f. 0 < length f) xs → All (λ f. 0 < length f) (latest m xs)
unfolding latest
latest-All m [] h = tt
latest-All m (x ∷ xs) h =
    if-cases (All (λ f. 0 < length f)) (fits m (x ∷ xs)) _ _ (λ small. h)
      (λ large. latest-All m xs h.1)

-- The newest frame is kept.
pub latest-newest :
    (m : ℕ) (xs : List Bytes) (p : Bytes)
    → (pre ys : List Bytes) × (latest m (xs ++ p ∷ []) ≡ ys ++ p ∷ []) × (pre ++ ys ≡ xs)
unfolding latest fits
latest-newest m [] p = ([], [], refl, refl)
latest-newest m (x ∷ xs) p =
    if-cases (λ l. (pre ys : List Bytes) × (l ≡ ys ++ p ∷ []) × (pre ++ ys ≡ x ∷ xs))
      (fits m (x ∷ (xs ++ p ∷ []))) _ _ (λ small. ([], x ∷ xs, refl, refl))
      (λ large.
        let rest = latest-newest m xs p in (x ∷ rest.0, rest.1, rest.2, ap (λ l. x ∷ l) rest.3))
