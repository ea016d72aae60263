-- ===== src/Tests/Protocol.antt =====
-- The two encodings at concrete frames.
use open_console.Prelude.{Bytes, [], codes, refl, some, true, ◌∷◌, ◌≡◌}
use open_console.Web.Json.{Json, end, field, nat, num, obj, str}
use open_console.Web.Protocol.{
  Frame, data_frame, data_in_control, decode_binary, decode_control, decoded, encode_control, err,
  inherited, not_data, ok, on_prototype, raw, resize, too_short, unknown_type,
}
use open_console.Web.Protocol.Control.{decode_control-inherited, frame_of}

abbrev keystroke : Bytes
keystroke = 2 ∷ 0 ∷ 0 ∷ 1 ∷ 5 ∷ 0x61 ∷ []

abbrev keystroke_frame : Frame
keystroke_frame = record { type = data_frame; channel = nat 261; payload = raw (0x61 ∷ []) }

decode_keystroke : decode_binary keystroke ≡ ok keystroke_frame
unfolding decode_binary
decode_keystroke = refl

decode_binary_refuses :
    (decode_binary (2 ∷ 0 ∷ 0 ∷ 0 ∷ []) ≡ err (too_short 4))
    × (decode_binary (1 ∷ 0 ∷ 0 ∷ 0 ∷ 0 ∷ []) ≡ err (not_data 1))
unfolding decode_binary
decode_binary_refuses = (refl, refl)

abbrev size_payload : Json
size_payload = obj (field (codes "cols") (num (nat 80)) (field (codes "rows") (num (nat 24)) end))

abbrev resize_frame : Frame
resize_frame = record { type = resize; channel = nat 0; payload = decoded (some size_payload) }

decode_resize :
    decode_control (some (encode_control resize (some size_payload) 0)) ≡ ok resize_frame
unfolding decode_control encode_control
decode_resize = refl

to_string_inherited : on_prototype (codes "toString") ≡ true
unfolding on_prototype
to_string_inherited = refl

decode_control-inherited_example :
    decode_control (some (obj (field (codes "type") (str (codes "toString")) end)))
    ≡ ok (
        frame_of
          (inherited (codes "toString"))
          (obj (field (codes "type") (str (codes "toString")) end)))
decode_control-inherited_example =
    decode_control-inherited (codes "toString") end to_string_inherited

decode_control_refuses_data :
    decode_control (some (obj (field (codes "type") (str (codes "DATA")) end)))
    ≡ err data_in_control
unfolding decode_control
decode_control_refuses_data = refl

-- The relay's WINDOW frame has no counterpart here.
decode_control_refuses_window :
    decode_control (some (obj (field (codes "type") (str (codes "WINDOW")) end)))
    ≡ err (unknown_type (some (str (codes "WINDOW"))))
unfolding decode_control
decode_control_refuses_window = refl
