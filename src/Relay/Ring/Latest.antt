-- ===== src/Relay/Ring/Latest.antt =====
-- What the ring of internal/session/ring.go keeps: the longest end of the output that fits.
use open_console.Prelude.{
  ◌+◌, ◌++◌, ◌-◌, ◌<◌, All, All-append, Bool, Bool-cases, Bytes, List, [], ap, append-nil,
  append_assoc, arith, false, if◌then◌else◌, inl, inr, leb, leb→le, length, ltb, not, refl, sym,
  true, ℕ, ◌∙◌, ◌∷◌, ◌≡◌, ◌≤◌, ◌⊎◌,
}
use open_console.Relay.Ring.{count, frames_of, len, FrameRing, evict, add, add_all, new_frame_ring}

unfoldable pub total : List Bytes → ℕ
total [] = 0
total (f ∷ fs) = length f + total fs

-- A frame is kept whole, so one frame fits whatever its length.
unfoldable pub fits : ℕ → List Bytes → Bool
unfolding total
fits max_bytes [] = true
fits max_bytes (f ∷ []) = true
fits max_bytes (f ∷ g ∷ fs) = leb (total (f ∷ g ∷ fs)) max_bytes

-- The longest end of a sequence of frames that fits.
unfoldable pub latest : ℕ → List Bytes → List Bytes
unfolding fits
latest max_bytes [] = []
latest max_bytes (f ∷ fs) = if fits max_bytes (f ∷ fs) then f ∷ fs else latest max_bytes fs

-- The frames that are not empty.
unfoldable pub solid : List Bytes → List Bytes
solid [] = []
solid ([] ∷ fs) = solid fs
solid ((b ∷ f) ∷ fs) = (b ∷ f) ∷ solid fs

total-append : (fs gs : List Bytes) → total (fs ++ gs) ≡ total fs + total gs
unfolding total
total-append [] gs = omega arith
total-append (f ∷ fs) gs = omega (arith, total-append fs gs)

fits_two :
    (m : ℕ) (x p : Bytes) (xs : List Bytes)
    → fits m (x ∷ (xs ++ p ∷ [])) ≡ leb (total (x ∷ (xs ++ p ∷ []))) m
unfolding fits total
fits_two m x p [] = refl
fits_two m x p (y ∷ ys) = refl

lt→leb : (a m : ℕ) → a < m → leb (a + 0) m ≡ true
lt→leb a m h = ground arith

positive : (n : ℕ) → 0 < n → leb n 0 ≡ false
positive n h = ground arith

not_leb : (m n : ℕ) → leb m n ≡ false → n < m
not_leb m n h = ground arith

-- What does not fit does not fit with one frame more.
grown-large :
    (m : ℕ) (x p : Bytes) (xs : List Bytes)
    → fits m (x ∷ xs) ≡ false
    → leb (total (x ∷ (xs ++ p ∷ []))) m ≡ false
unfolding fits
grown-large m x p [] h = absurd (ground (arith, h))
grown-large m x p (y ∷ ys) h = ground (arith, total-append ys (p ∷ []))

-- The ring that holds some frames.
abbrev pub holding : ℕ → List Bytes → FrameRing
holding m fs = record { max_bytes = m; bytes = total fs; frames = fs }

leb-flip : (a b : ℕ) → ltb a b ≡ not (leb b a)
leb-flip a b = ground arith

minus_first : (a b : ℕ) → a + b - a ≡ b
minus_first a b = omega arith

-- On a sequence that ends in a small frame the loop stops where the end fits.
evict-latest :
    (m : ℕ) (xs : List Bytes) (p : Bytes)
    → length p < m
    → evict m (total (xs ++ p ∷ [])) (xs ++ p ∷ []) ≡ holding m (latest m (xs ++ p ∷ []))
unfolding latest evict
evict-latest m [] p h = rw (leb-flip m (length p + 0), lt→leb (length p) m h) refl
evict-latest m (x ∷ xs) p h = elim (Bool-cases (leb (total (x ∷ (xs ++ p ∷ []))) m)) [
  | inl small ↦ rw (fits_two m x p xs, leb-flip m (total (x ∷ (xs ++ p ∷ []))), small) refl
  | inr large ↦
      rw
        (
          fits_two m x p xs,
          leb-flip m (total (x ∷ (xs ++ p ∷ []))),
          large,
          minus_first (length x) (total (xs ++ p ∷ [])),
        )
        (evict-latest m xs p h)
]

last-total : (xs : List Bytes) (p : Bytes) → length p ≤ total (xs ++ p ∷ [])
unfolding total
last-total [] p = omega arith
last-total (x ∷ xs) p = omega (arith, last-total xs p)

too_long : (m a t n : ℕ) → 0 < a → m ≤ n → n ≤ t → leb (a + t) m ≡ false
too_long m a t n h k l = ground arith

-- A frame that fills the ring replaces everything.
latest-large :
    (m : ℕ) (xs : List Bytes) (p : Bytes)
    → All (λ f. 0 < length f) xs
    → m ≤ length p
    → latest m (xs ++ p ∷ []) ≡ p ∷ []
unfolding latest
latest-large m [] p h k = refl
latest-large m (x ∷ xs) p h k =
    rw
      (
        fits_two m x p xs,
        too_long m (length x) (total (xs ++ p ∷ [])) (length p) h.0 k (last-total xs p),
      )
      (latest-large m xs p h.1 k)

-- Adding to the longest end that fits, and cutting again, gives the longest end.
evict-grown :
    (m : ℕ) (xs : List Bytes) (p : Bytes)
    → length p < m
    → evict m (total (latest m xs ++ p ∷ [])) (latest m xs ++ p ∷ [])
      ≡ holding m (latest m (xs ++ p ∷ []))
unfolding latest
evict-grown m [] p h = evict-latest m [] p h
evict-grown m (x ∷ xs) p h = elim (Bool-cases (fits m (x ∷ xs))) [
  | inl small ↦ rw small (evict-latest m (x ∷ xs) p h)
  | inr large ↦ rw (large, fits_two m x p xs, grown-large m x p xs large) (evict-grown m xs p h)
]

-- The three ways of `Add`, by the tests that choose them.
grows :
    (m : ℕ) (xs : List Bytes) (p : Bytes)
    → length p < m
    → evict m (total (latest m xs) + length p) (latest m xs ++ p ∷ [])
      ≡ holding m (latest m (xs ++ p ∷ []))
unfolding total
grows m xs p h =
    ap (λ n. evict m n (latest m xs ++ p ∷ [])) (omega (arith, total-append (latest m xs) (p ∷ [])))
    ∙ evict-grown m xs p h

add-holding :
    (m : ℕ) (xs : List Bytes) (p : Bytes)
    → All (λ f. 0 < length f) xs
    → 0 < m
    → 0 < length p
    → add (holding m (latest m xs)) p ≡ holding m (latest m (xs ++ p ∷ []))
unfolding add total
add-holding m xs p h k l = elim (Bool-cases (leb m (length p))) [
  | inl large ↦
      rw
        (
          positive m k,
          positive (length p) l,
          large,
          latest-large m xs p h (leb→le m (length p) large),
        )
        (ap (λ n. record { max_bytes = m; bytes = n; frames = p ∷ [] }) (omega arith))
  | inr small ↦
      rw (positive m k, positive (length p) l, small) (grows m xs p (not_leb m (length p) small))
]

add-empty : (r : FrameRing) → add r [] ≡ r
unfolding add
add-empty r = elim (Bool-cases (leb r.max_bytes 0)) [
  | inl none_kept ↦ rw none_kept refl
  | inr some_kept ↦ rw some_kept refl
]

solid-snoc :
    (xs : List Bytes) (p : Bytes)
    → All (λ f. 0 < length f) xs
    → 0 < length p
    → All (λ f. 0 < length f) (xs ++ p ∷ [])
solid-snoc xs p h k = All-append _ xs (p ∷ []) h (k, tt)

add_all-holding :
    (m : ℕ) (ps xs : List Bytes)
    → All (λ f. 0 < length f) xs
    → 0 < m
    → add_all (holding m (latest m xs)) ps ≡ holding m (latest m (xs ++ solid ps))
unfolding add_all solid
add_all-holding m [] xs h k = ap (λ l. holding m (latest m l)) (sym (append-nil xs))
add_all-holding m ([] ∷ ps) xs h k =
    ap (λ r. add_all r ps) (add-empty (holding m (latest m xs))) ∙ add_all-holding m ps xs h k
add_all-holding m ((b ∷ p) ∷ ps) xs h k =
    ap (λ r. add_all r ps) (add-holding m xs (b ∷ p) h k (omega arith))
    ∙ add_all-holding m ps (xs ++ (b ∷ p) ∷ []) (solid-snoc xs (b ∷ p) h (omega arith)) k
    ∙ ap (λ l. holding m (latest m l)) (append_assoc xs ((b ∷ p) ∷ []) (solid ps))

-- Whatever is added to a new ring with a positive bound, in whatever order, the ring then holds the
-- longest end of the non-empty frames that fits its bound, where one frame alone always fits, and
-- its byte count is the sum of the lengths of the frames it holds.
pub add_all-latest :
    (m : ℕ) (ps : List Bytes)
    → 0 < m
    → (frames_of (add_all (new_frame_ring m) ps) ≡ latest m (solid ps))
      × (len (add_all (new_frame_ring m) ps) ≡ total (frames_of (add_all (new_frame_ring m) ps)))
unfolding latest total
add_all-latest m ps h = rw (add_all-holding m ps [] tt h) (refl, refl)

fits-bound : (m : ℕ) (fs : List Bytes) → fits m fs ≡ true → (length fs ≤ 1) ⊎ (total fs ≤ m)
unfolding fits
fits-bound m [] h = inl (omega arith)
fits-bound m (f ∷ []) h = inl (omega arith)
fits-bound m (f ∷ g ∷ fs) h = inr (leb→le _ m h)

latest-fits : (m : ℕ) (xs : List Bytes) → fits m (latest m xs) ≡ true
unfolding latest
latest-fits m [] = refl
latest-fits m (x ∷ xs) = elim (Bool-cases (fits m (x ∷ xs))) [
  | inl small ↦ rw small small
  | inr large ↦ rw large (latest-fits m xs)
]

-- However much output a host sends, a ring with a positive bound holds one frame at most, or no
-- more bytes than its bound.
pub add_all-bound :
    (m : ℕ) (ps : List Bytes)
    → 0 < m
    → (count (add_all (new_frame_ring m) ps) ≤ 1) ⊎ (len (add_all (new_frame_ring m) ps) ≤ m)
unfolding latest total
add_all-bound m ps h = rw (add_all-holding m ps [] tt h) (fits-bound m _ (latest-fits m (solid ps)))
