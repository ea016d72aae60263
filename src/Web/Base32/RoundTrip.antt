-- ===== src/Web/Base32/RoundTrip.antt =====
-- Decoding what was encoded. Between two bytes the decoder is behind the encoder by the bits that
-- the encoder still holds.
use open_console.Prelude.{
  ℕ, zero, suc, ◌+◌, ◌-◌, ◌*◌, ◌%◌, ◌^◌, ◌<◌, ◌≡◌, refl, sym, ap, ap₂, ◌∙◌, List, [], ◌∷◌, ◌++◌,
  map, append-nil, append_assoc, arith, ◌==◌, if◌then◌else◌, Text, Bytes, All,
}
use open_console.Web.Base32.Digits.{
  next_bits, next_bits-lt, byte_digits, last_digits, digits, digits-lt, push_digits,
  push_digits-append, encode_base32-digits,
}
use open_console.Web.Base32.Letters.{
  letter, lower, to_lower, to_upper, keep_end, trim_end, trim_start, trim,
}
use open_console.Web.Base32.Tables.{index_of-letter, upper-lower-letter, is_space-letter}
use open_console.Web.Base32.{
  shl32, Acc, push_digit, decode_chars, encode_base32, decode_base32, bytes,
}

-- The byte that the decoder has not finished: its high bits are the decoder's, its low `e` bits
-- the encoder's.
abbrev pending : ℕ → ℕ → ℕ → Bytes
pending e v w = if e == 0 then [] else (w % 2 ^ (8 - e) * 2 ^ e + v % 2 ^ e) ∷ []

-- The decoder's state at such a point, with `w` in its accumulator and `o` written.
abbrev behind : ℕ → ℕ → Bytes → Acc ℕ
behind e w o = record { bits = if e == 0 then 0 else 8 - e; value = w; out = o }

record CatchesUp (e v : ℕ) (s : Acc ℕ) (done : Bytes) : Type 0 where
  value : ℕ
  out : Bytes
  at : s ≡ behind e value out
  bytes : out ++ pending e v value ≡ done

one_more : (o : Bytes) (x y : ℕ) → x ≡ y → o ++ x ∷ [] ≡ o ++ y ∷ []
one_more o x y h = ap (λ z. o ++ z ∷ []) h

two_more :
    (o : Bytes) (x y z u : ℕ) → x ≡ z → y ≡ u → (o ++ x ∷ []) ++ y ∷ [] ≡ (o ++ z ∷ []) ++ u ∷ []
two_more o x y z u h k = ap₂ (λ a b. (o ++ a ∷ []) ++ b ∷ []) h k

push_byte :
    (e v b w : ℕ) (o : Bytes)
    → e < 5
    → b < 256
    → CatchesUp
        (next_bits e)
        (shl32 v 8 + b)
        (push_digits (behind e w o) (byte_digits e (shl32 v 8 + b)))
        ((o ++ pending e v w) ++ b ∷ [])
unfolding push_digits push_digit
push_byte zero v b w o h hb = record {
  value = _;
  out = _;
  at = refl;
  bytes = rw append-nil (one_more _ _ _ (ground arith));
}
push_byte (suc zero) v b w o h hb = record {
  value = _;
  out = _;
  at = refl;
  bytes = two_more _ _ _ _ _ (ground arith) (ground arith);
}
push_byte (suc (suc zero)) v b w o h hb = record {
  value = _;
  out = _;
  at = refl;
  bytes = append-nil _ ∙ two_more _ _ _ _ _ (ground arith) (ground arith);
}
push_byte (suc (suc (suc zero))) v b w o h hb = record {
  value = _;
  out = _;
  at = refl;
  bytes = two_more _ _ _ _ _ (ground arith) (ground arith);
}
push_byte (suc (suc (suc (suc zero)))) v b w o h hb = record {
  value = _;
  out = _;
  at = refl;
  bytes = two_more _ _ _ _ _ (ground arith) (ground arith);
}
push_byte (suc (suc (suc (suc (suc e))))) v b w o h hb = absurd (omega arith)

push_last :
    (e v w : ℕ) (o : Bytes)
    → e < 5
    → (push_digits (behind e w o) (last_digits e v)).out ≡ o ++ pending e v w
unfolding push_digits push_digit
push_last zero v w o h = sym (append-nil o)
push_last (suc zero) v w o h = one_more _ _ _ (ground arith)
push_last (suc (suc zero)) v w o h = one_more _ _ _ (ground arith)
push_last (suc (suc (suc zero))) v w o h = one_more _ _ _ (ground arith)
push_last (suc (suc (suc (suc zero)))) v w o h = one_more _ _ _ (ground arith)
push_last (suc (suc (suc (suc (suc e))))) v w o h = absurd (omega arith)

push_digits-digits :
    (bs : Bytes) (e v w : ℕ) (o : Bytes)
    → e < 5
    → All (λ b. b < 256) bs
    → (push_digits (behind e w o) (digits e v bs)).out ≡ (o ++ pending e v w) ++ bs
unfolding digits
push_digits-digits [] e v w o h k = push_last e v w o h ∙ sym (append-nil _)
push_digits-digits (b ∷ bs) e v w o h k =
    let c = push_byte e v b w o h k.0 in
    ap (λ s. s.out) (push_digits-append (byte_digits e (shl32 v 8 + b)) _ (behind e w o))
    ∙ ap (λ s. (push_digits s (digits (next_bits e) (shl32 v 8 + b) bs)).out) c.at
    ∙ push_digits-digits bs (next_bits e) _ c.value c.out (next_bits-lt e h) k.1
    ∙ ap (λ l. l ++ bs) c.bytes
    ∙ append_assoc _ (b ∷ []) bs

to_upper-to_lower :
    (ds : List ℕ) → All (λ d. d < 32) ds → to_upper (to_lower (map letter ds)) ≡ map letter ds
unfolding to_upper to_lower
to_upper-to_lower [] h = refl
to_upper-to_lower (d ∷ ds) h = ap₂ ◌++◌ (upper-lower-letter d h.0) (to_upper-to_lower ds h.1)

trim_end-to_lower :
    (ds : List ℕ)
    → All (λ d. d < 32) ds
    → trim_end (to_lower (map letter ds)) ≡ to_lower (map letter ds)
unfolding trim_end to_lower
trim_end-to_lower [] h = refl
trim_end-to_lower (d ∷ []) h = rw (is_space-letter d h.0)
trim_end-to_lower (d ∷ e ∷ ds) h = ap (keep_end (lower (letter d))) (trim_end-to_lower (e ∷ ds) h.1)

trim-to_lower :
    (ds : List ℕ)
    → All (λ d. d < 32) ds
    → trim (to_lower (map letter ds)) ≡ to_lower (map letter ds)
unfolding trim trim_start to_lower
trim-to_lower [] h = trim_end-to_lower [] h
trim-to_lower (d ∷ ds) h = rw (is_space-letter d h.0) (trim_end-to_lower (d ∷ ds) h)

decode_chars-letters :
    (ds : List ℕ) (s : Acc ℕ)
    → All (λ d. d < 32) ds
    → decode_chars s (map letter ds) ≡ bytes (push_digits s ds).out
unfolding decode_chars push_digits
decode_chars-letters [] s h = refl
decode_chars-letters (d ∷ ds) s h =
    rw (index_of-letter d h.0, decode_chars) (decode_chars-letters ds (push_digit s d) h.1)

decode_base32-chars :
    (s : Text)
    → decode_base32 s ≡ decode_chars (record { bits = 0; value = 0; out = [] }) (to_upper (trim s))
unfolding decode_base32
decode_base32-chars s = refl

-- Decoding what was encoded gives the same bytes back, for any number of bytes.
pub decode_base32-encode_base32 :
    (bs : Bytes) → All (λ b. b < 256) bs → decode_base32 (encode_base32 bs) ≡ bytes bs
decode_base32-encode_base32 bs h =
    let small = digits-lt bs 0 0 in
    rw (
      encode_base32-digits bs,
      decode_base32-chars,
      trim-to_lower (digits 0 0 bs) small,
      to_upper-to_lower (digits 0 0 bs) small,
      decode_chars-letters (digits 0 0 bs) _ small,
      push_digits-digits bs 0 0 0 [] (omega arith) h,
    )
