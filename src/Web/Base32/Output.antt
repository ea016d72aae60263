-- ===== src/Web/Base32/Output.antt =====
-- What encoding writes: letters of the alphabet in lower case, and how many.
use open_console.Prelude.{
  ◌*◌, ◌+◌, ◌/◌, ◌<◌, All, Bool-cases, Bytes, List, [], ap₂, arith, if◌then◌else◌, inl, inr, length,
  length-append, ltb, map, refl, ℕ, ◌∙◌, ◌∷◌, ◌≡◌,
}
use open_console.Web.Base32.Letters.{letter, lower, to_lower}
use open_console.Web.Base32.Digits.{
  digits, digits-lt, encode_base32-digits, byte_digits, last_digits, next_bits, next_bits-lt,
}
use open_console.Web.Base32.{encode_base32, shl32}

All-letters :
    (P : ℕ → Type 0) (ds : List ℕ)
    → ((d : ℕ) → d < 32 → P (lower (letter d)))
    → All (λ d. d < 32) ds
    → All P (to_lower (map letter ds))
unfolding to_lower
All-letters P [] h small = tt
All-letters P (d ∷ ds) h small = (h d small.0, All-letters P ds h small.1)

-- A property of the 32 lower-case letters holds of all that is written.
pub All-encode_base32 :
    (P : ℕ → Type 0) (bs : Bytes)
    → ((d : ℕ) → d < 32 → P (lower (letter d)))
    → All P (encode_base32 bs)
All-encode_base32 P bs h =
    rw encode_base32-digits (All-letters P (digits 0 0 bs) h (digits-lt bs 0 0))

length-letters : (ds : List ℕ) → length (to_lower (map letter ds)) ≡ length ds
unfolding to_lower
length-letters [] = refl
length-letters (d ∷ ds) = omega (arith, length-letters ds)

length-byte_digits : (e v : ℕ) → length (byte_digits e v) ≡ (if ltb e 2 then 1 else 2)
length-byte_digits e v = elim (Bool-cases (ltb e 2)) [ inl one ↦ rw one | inr two ↦ rw two ]

length-last_digits : (e v : ℕ) → length (last_digits e v) ≡ (if ltb 0 e then 1 else 0)
length-last_digits e v = elim (Bool-cases (ltb 0 e)) [
  | inl left ↦ rw left
  | inr none_left ↦ rw none_left
]

length-digits :
    (bs : Bytes) (e v : ℕ) → e < 5 → length (digits e v bs) ≡ (8 * length bs + e + 4) / 5
unfolding digits
length-digits [] e v h = ground (arith, length-last_digits e v)
length-digits (b ∷ bs) e v h =
    length-append (byte_digits e (shl32 v 8 + b)) _
    ∙ ap₂ ◌+◌ (length-byte_digits e _) (length-digits bs (next_bits e) _ (next_bits-lt e h))
    ∙ ground arith

-- n bytes are written as ⌈8n / 5⌉ letters, and so none of them as none.
pub length-encode_base32 : (bs : Bytes) → length (encode_base32 bs) ≡ (8 * length bs + 4) / 5
length-encode_base32 bs =
    rw (encode_base32-digits, length-letters) (length-digits bs 0 0 (omega arith) ∙ ground arith)
