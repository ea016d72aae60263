-- ===== src/Web/Protocol/Binary.antt =====
-- The binary encoding loses nothing, and each frame has one encoding.
use open_console.Prelude.{◌%◌, ◌<◌, All, Bytes, ◌^◌, ap, arith, ℕ, ◌∷◌, ◌≡◌}
use open_console.Web.Json.{nat}
use open_console.Web.Protocol.{Frame, data_frame, raw, ok, of_be32, encode_data, decode_binary}

-- What decodeBinary makes of an encoded DATA frame: the payload, and the channel as a uint32.
pub decode_binary-encode_data :
    (payload : Bytes) (channel : ℕ)
    → decode_binary (encode_data payload channel)
      ≡ ok (record { type = data_frame; channel = nat (channel % 2 ^ 32); payload = raw payload })
unfolding decode_binary encode_data
decode_binary-encode_data payload channel =
    ap (λ n. ok (record { type = data_frame; channel = nat n; payload = raw payload }))
      (omega arith)

-- A buffer that decodes is the encoding of the frame that it decodes to, so no two buffers of
-- bytes decode to one frame.
pub encode_data-decode_binary :
    (buf : Bytes) (f : Frame)
    → All (λ b. b < 256) buf
    → decode_binary buf ≡ ok f
    → (payload : Bytes) × (channel : ℕ) × (f
        ≡ record { type = data_frame; channel = nat channel; payload = raw payload })
      × (channel < 2 ^ 32)
      × (encode_data payload channel ≡ buf)
unfolding decode_binary encode_data
encode_data-decode_binary (t ∷ a ∷ b ∷ c ∷ d ∷ payload) f h e =
    (payload, of_be32 a b c d, ground arith, ground arith, ground arith)
encode_data-decode_binary _ f h e = ground arith
