-- ===== src/Tests/Wire.antt =====
-- Frames and keys of both sides.
use open_console.Prelude.{
  ◌-◌, Bytes, [], arith, codes, if◌then◌else◌, length, ltb, none, refl, some, ◌∷◌, ◌≡◌,
}
use open_console.Web.Json.{Json, nat, num, str, obj, field, end}
use open_console.Web.Protocol.{
  encode_data, decode_binary, decode_control, data_frame, raw, unknown_type,
}
use open_console.Web.Protocol
use open_console.Web.Crypto
use open_console.Web.Crypto.{root, viewer}
use open_console.Wire.{
  header_len, marshal_binary, marshal_control, max_payload_len, ok, type_data, type_window,
  unmarshal_binary,
}
use open_console.Wire.Agreement.{
  read_by_go, read_by_browser, unmarshal_binary-decode_binary, marshal_binary-encode_data,
  decode_control-marshal_control,
}
use open_console.E2e.{Session, from_root_key, open_guest_to_host, seal_host_to_guest, viewer_key}
use open_console.E2e
use open_console.E2e.Interop.{sealed_across}
use open_console.Tests.Crypto.{toy, nonce, ticket_key}

abbrev buffer : Bytes
buffer = 2 ∷ 0 ∷ 0 ∷ 1 ∷ 0 ∷ b'h' ∷ b'i' ∷ []

buffer_read : read_by_go (unmarshal_binary buffer) ≡ some (256, codes "hi")
unfolding unmarshal_binary
buffer_read = refl

unmarshal_binary-decode_binary_example : read_by_go (unmarshal_binary buffer) ≡ (
    if ltb max_payload_len (length buffer - header_len)
    then none
    else read_by_browser (decode_binary buffer))
unmarshal_binary-decode_binary_example = unmarshal_binary-decode_binary buffer

marshal_binary-encode_data_example :
    (marshal_binary (record { type = type_data; channel = 256; payload = codes "hi" })
      ≡ ok (encode_data (codes "hi") 256))
    × (unmarshal_binary (encode_data (codes "hi") 256)
        ≡ ok (record { type = type_data; channel = 256; payload = codes "hi" }))
    × (decode_binary (encode_data (codes "hi") 256)
        ≡ Protocol.ok (record { type = data_frame; channel = nat 256; payload = raw (codes "hi") }))
marshal_binary-encode_data_example =
    marshal_binary-encode_data 256 (codes "hi") (omega arith) (omega arith)

abbrev window : Json
window =
    obj (field (codes "type") (str (codes "WINDOW")) (field (codes "channel") (num (nat 3)) end))

window_written : marshal_control type_window 3 none ≡ ok window
unfolding marshal_control
window_written = refl

decode_control-marshal_control_example :
    decode_control (some window) ≡ Protocol.err (unknown_type (some (str (codes "WINDOW"))))
decode_control-marshal_control_example =
    decode_control-marshal_control type_window 3 none window window_written

sealed_across_example :
    (h : Session toy) × (k : Bytes) × (g v : Crypto.Session toy) × (from_root_key toy
        (codes "abc")
        ticket_key
      ≡ E2e.ok h)
    × (viewer_key toy (codes "abc") ticket_key ≡ E2e.ok k)
    × (Crypto.from_ticket_key toy (codes "abc") ticket_key root ≡ Crypto.ok g)
    × (Crypto.from_ticket_key toy (codes "abc") k viewer ≡ Crypto.ok v)
    × ((sealed : Bytes) × (seal_host_to_guest toy (some h) 0 (some nonce) (codes "ls")
          ≡ E2e.ok sealed)
        × (Crypto.open_from_host toy g 0 sealed ≡ Crypto.ok (codes "ls"))
        × (Crypto.open_from_host toy v 0 sealed ≡ Crypto.ok (codes "ls")))
    × ((sealed : Bytes) × (Crypto.seal_to_host toy g 0 nonce (codes "ls") ≡ Crypto.ok sealed)
        × (open_guest_to_host toy (some h) 0 sealed ≡ E2e.ok (codes "ls")))
sealed_across_example = sealed_across toy (codes "abc") ticket_key 0 nonce (codes "ls") refl refl
