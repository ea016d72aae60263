-- ===== src/Web/Base32.antt =====
-- encodeBase32 and decodeBase32 of web/src/crypto.ts.
--
-- A JavaScript string is the list of its code points. The accumulator `value` goes through
-- JavaScript's 32-bit operators, so it is kept as its bit pattern below 2^32.
pub mod Letters
pub mod Tables
pub mod Digits
pub mod RoundTrip
pub mod Output
pub mod Loops
unfoldable pub use Letters.{alphabet, letter, index_of, to_lower, to_upper, is_space, trim}
use open_console.Prelude.{
  ℕ, zero, suc, ◌+◌, ◌-◌, ◌*◌, ◌/◌, ◌%◌, ◌^◌, Bool, true, false, Option, none, some, List, [], ◌∷◌,
  ◌++◌, ltb, leb, if◌then◌else◌, Text, Bytes,
}

-- `x << k` and `x >> k` on 32-bit patterns: the second copies the sign bit down.
abbrev pub shl32 : ℕ → ℕ → ℕ
shl32 x k = x * 2 ^ k % 2 ^ 32

abbrev pub sar32 : ℕ → ℕ → ℕ
sar32 x k = if ltb x (2 ^ 31) then x / 2 ^ k else x / 2 ^ k + (2 ^ 32 - 2 ^ (32 - k))

-- The locals of both loops: `bits`, `value`, and the output so far.
pub record Acc {ℓ} (A : Type ℓ) : Type ℓ where
  pub bits : ℕ
  pub value : ℕ
  pub out : List A

-- `while (bits >= 5)`, with fuel: two rounds are enough below 15 bits.
unfoldable pub emit : ℕ → Acc ℕ → Acc ℕ
unfolding letter
emit zero s = s
emit (suc fuel) s = elim (leb 5 s.bits) [
  | true ↦ emit fuel (record {
    bits = s.bits - 5;
    value = s.value;
    out = s.out ++ letter (sar32 s.value (s.bits - 5) % 32) ∷ [];
  })
  | false ↦ s
]

-- The body of the loop over the bytes.
unfoldable pub encode_byte : Acc ℕ → ℕ → Acc ℕ
unfolding emit
encode_byte s b = emit 2 (record { bits = s.bits + 8; value = shl32 s.value 8 + b; out = s.out })

unfoldable pub encode_bytes : Acc ℕ → Bytes → Acc ℕ
encode_bytes s [] = s
encode_bytes s (b ∷ bs) = encode_bytes (encode_byte s b) bs

-- The bits that are left over, as one last letter.
unfoldable pub encode_rest : Acc ℕ → Text
unfolding letter
encode_rest s =
    if ltb 0 s.bits then s.out ++ letter (shl32 s.value (5 - s.bits) % 32) ∷ [] else s.out

unfoldable pub encode_base32 : Bytes → Text
unfolding encode_byte encode_bytes encode_rest to_lower
encode_base32 bytes =
    to_lower (encode_rest (encode_bytes (record { bits = 0; value = 0; out = [] }) bytes))

-- What decoding throws: the character that is not in the alphabet.
pub data Decoded : Type 0 where
  bytes : Bytes → Decoded
  not_base32 : ℕ → Decoded

unfoldable pub push_digit : Acc ℕ → ℕ → Acc ℕ
push_digit s idx =
    let value : ℕ = shl32 s.value 5 + idx in
    let bits : ℕ = s.bits + 5 in
    if leb 8 bits
    then record {
      bits = bits - 8;
      value = value;
      out = s.out ++ (sar32 value (bits - 8) % 256) ∷ [];
    }
    else record { bits = bits; value = value; out = s.out }

unfoldable pub decode_chars : Acc ℕ → Text → Decoded
decode_chars s [] = bytes s.out
decode_chars s (ch ∷ cs) = elim (index_of ch) [
  | none ↦ not_base32 ch
  | some idx ↦ decode_chars (push_digit s idx) cs
]

unfoldable pub decode_base32 : Text → Decoded
unfolding index_of push_digit decode_chars trim to_upper
decode_base32 s = decode_chars (record { bits = 0; value = 0; out = [] }) (to_upper (trim s))
