-- ===== src/Tests/Base32.antt =====
-- encodeBase32 and decodeBase32 at concrete inputs.
use open_console.Prelude.{◌<◌, Bytes, [], arith, codes, refl, ◌∷◌, ◌≡◌}
use open_console.Web.Base32.{
  emit, encode_base32, encode_byte, encode_bytes, decode_base32, bytes, not_base32,
}
use open_console.Web.Base32.RoundTrip.{decode_base32-encode_base32}
use open_console.Web.Base32.Loops.{encode_byte-ends, loaded, start}

abbrev foobar : Bytes
foobar = codes "foobar"

encode_foobar : encode_base32 foobar ≡ codes "mzxw6ytboi"
unfolding encode_base32
encode_foobar = refl

decode_shouted : decode_base32 (codes " MZXW6ytboi\n") ≡ bytes foobar
unfolding decode_base32
decode_shouted = refl

decode_refuses_one : decode_base32 (codes "mz1w") ≡ not_base32 b'1'
unfolding decode_base32
decode_refuses_one = refl

-- U+00DF becomes two letters in upper case.
decode_sharp_s : decode_base32 (0xdf ∷ []) ≡ decode_base32 (codes "ss")
unfolding decode_base32
decode_sharp_s = refl

decode_base32-encode_base32_example :
    decode_base32 (encode_base32 (0 ∷ 255 ∷ 128 ∷ [])) ≡ bytes (0 ∷ 255 ∷ 128 ∷ [])
decode_base32-encode_base32_example = decode_base32-encode_base32 (0 ∷ 255 ∷ 128 ∷ []) (omega arith)

encode_byte-ends_example :
    ((encode_byte (encode_bytes start foobar) 255).bits < 5)
    × (emit 7 (loaded (encode_bytes start foobar) 255)
        ≡ encode_byte (encode_bytes start foobar) 255)
encode_byte-ends_example = encode_byte-ends foobar 255 7 (omega arith)
