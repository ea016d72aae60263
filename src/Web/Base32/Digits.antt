-- ===== src/Web/Base32/Digits.antt =====
-- The 5-bit digits that the encoder's loop emits, without the output string, and the decoder on
-- digits instead of characters.
use open_console.Prelude.{
  ℕ, zero, suc, ◌+◌, ◌-◌, ◌%◌, ◌<◌, ◌≡◌, refl, sym, ap, ◌∙◌, List, [], ◌∷◌, ◌++◌, map, append-nil,
  append_assoc, arith, ltb, if◌then◌else◌, Text, Bytes, All, All-append, Bool-cases, inl, inr,
}
use mathlib.Core.List.{map-append}
use open_console.Web.Base32.Letters.{letter, to_lower}
use open_console.Web.Base32.{
  shl32, sar32, Acc, encode_byte, encode_bytes, encode_rest, encode_base32, push_digit,
}

abbrev pub next_bits : ℕ → ℕ
next_bits e = if ltb e 2 then e + 3 else e - 2

-- What one byte emits, on an accumulator `v` that already holds it.
abbrev pub byte_digits : ℕ → ℕ → List ℕ
byte_digits e v =
    if ltb e 2
    then (sar32 v (e + 3) % 32) ∷ []
    else (sar32 v (e + 3) % 32) ∷ (sar32 v (e - 2) % 32) ∷ []

abbrev pub last_digits : ℕ → ℕ → List ℕ
last_digits e v = if ltb 0 e then (shl32 v (5 - e) % 32) ∷ [] else []

unfoldable pub digits : ℕ → ℕ → Bytes → List ℕ
digits e v [] = last_digits e v
digits e v (b ∷ bs) = byte_digits e (shl32 v 8 + b) ++ digits (next_bits e) (shl32 v 8 + b) bs

unfoldable pub push_digits : Acc ℕ → List ℕ → Acc ℕ
push_digits s [] = s
push_digits s (d ∷ ds) = push_digits (push_digit s d) ds

pub push_digits-append :
    (ds es : List ℕ) (s : Acc ℕ) → push_digits s (ds ++ es) ≡ push_digits (push_digits s ds) es
unfolding push_digits
push_digits-append [] es s = refl
push_digits-append (d ∷ ds) es s = push_digits-append ds es (push_digit s d)

pub next_bits-lt : (e : ℕ) → e < 5 → next_bits e < 5
next_bits-lt e h = ground arith

encode_byte-digits :
    (e v b : ℕ) (o : Text)
    → e < 5
    → encode_byte (record { bits = e; value = v; out = o }) b ≡ record {
      bits = next_bits e;
      value = shl32 v 8 + b;
      out = o ++ map letter (byte_digits e (shl32 v 8 + b));
    }
unfolding encode_byte
encode_byte-digits zero v b o h = refl
encode_byte-digits (suc zero) v b o h = refl
encode_byte-digits (suc (suc zero)) v b o h = simp append_assoc
encode_byte-digits (suc (suc (suc zero))) v b o h = simp append_assoc
encode_byte-digits (suc (suc (suc (suc zero)))) v b o h = simp append_assoc
encode_byte-digits (suc (suc (suc (suc (suc e))))) v b o h = absurd (omega arith)

last_digits-rest :
    (e v : ℕ) (o : Text)
    → encode_rest (record { bits = e; value = v; out = o }) ≡ o ++ map letter (last_digits e v)
unfolding encode_rest
last_digits-rest e v o = elim (Bool-cases (ltb 0 e)) [
  | inl some_left ↦ rw some_left
  | inr no_left ↦ rw no_left (sym (append-nil o))
]

encode_bytes-digits :
    (bs : Bytes) (e v : ℕ) (o : Text)
    → e < 5
    → encode_rest (encode_bytes (record { bits = e; value = v; out = o }) bs)
      ≡ o ++ map letter (digits e v bs)
unfolding encode_bytes digits
encode_bytes-digits [] e v o h = last_digits-rest e v o
encode_bytes-digits (b ∷ bs) e v o h =
    ap (λ s. encode_rest (encode_bytes s bs)) (encode_byte-digits e v b o h)
    ∙ encode_bytes-digits bs (next_bits e) _ _ (next_bits-lt e h)
    ∙ simp (map-append, append_assoc)

pub encode_base32-digits : (bs : Bytes) → encode_base32 bs ≡ to_lower (map letter (digits 0 0 bs))
unfolding encode_base32
encode_base32-digits bs =
    ap to_lower (unfold encode_byte encode_rest in encode_bytes-digits bs 0 0 [] (omega arith))

byte_digits-lt : (e v : ℕ) → All (λ d. d < 32) (byte_digits e v)
byte_digits-lt e v = elim (Bool-cases (ltb e 2)) [
  | inl one ↦ rw one (omega arith)
  | inr two ↦ rw two (omega arith)
]

last_digits-lt : (e v : ℕ) → All (λ d. d < 32) (last_digits e v)
last_digits-lt e v = elim (Bool-cases (ltb 0 e)) [
  | inl one ↦ rw one (omega arith)
  | inr two ↦ rw two tt
]

pub digits-lt : (bs : Bytes) (e v : ℕ) → All (λ d. d < 32) (digits e v bs)
unfolding digits
digits-lt [] e v = last_digits-lt e v
digits-lt (b ∷ bs) e v = All-append _ _ _ (byte_digits-lt e _) (digits-lt bs _ _)
