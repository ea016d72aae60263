-- ===== src/Web/TextDecoder.antt =====
-- `new TextDecoder()` with `{ stream: true }`, as web/src/main.ts uses it: UTF-8 that may be cut
-- anywhere. What is no UTF-8 becomes U+FFFD, and a byte order mark at the very start is dropped.
pub mod Chunks
use open_console.Prelude.{
  ◌%◌, ◌&&◌, ◌*◌, ◌+◌, ◌++◌, ◌-◌, ◌==◌, Bool, Bytes, List, Text, [], false, if◌then◌else◌, leb, ltb,
  not, true, ℕ, ◌∷◌,
}

-- A sequence that is being read: the bytes to come, the range of the next one, and the bits so far.
pub record Utf8 : Type 0 where
  pub left : ℕ
  pub lower : ℕ
  pub upper : ℕ
  pub point : ℕ

abbrev pub idle : Utf8
idle = record { left = 0; lower = 0x80; upper = 0xbf; point = 0 }

-- The first byte of a sequence. The ranges leave out overlong forms and surrogates.
unfoldable pub lead : ℕ → Utf8 × Text
lead b =
    if ltb b 0x80
    then (idle, b ∷ [])
    else if leb 0xc2 b && leb b 0xdf
    then (record { left = 1; lower = 0x80; upper = 0xbf; point = b - 0xc0 }, [])
    else if leb 0xe0 b && leb b 0xef
    then (
      record {
        left = 2;
        lower = if b == 0xe0 then 0xa0 else 0x80;
        upper = if b == 0xed then 0x9f else 0xbf;
        point = b - 0xe0;
      },
      [],
    )
    else if leb 0xf0 b && leb b 0xf4
    then (
      record {
        left = 3;
        lower = if b == 0xf0 then 0x90 else 0x80;
        upper = if b == 0xf4 then 0x8f else 0xbf;
        point = b - 0xf0;
      },
      [],
    )
    else (idle, 0xfffd ∷ [])

-- A byte inside a sequence. One that does not belong there ends it, and is read again as a first
-- byte.
unfoldable pub follow : Utf8 → ℕ → Utf8 × Text
unfolding lead
follow s b =
    if not (leb s.lower b && leb b s.upper)
    then ((lead b).0, 0xfffd ∷ (lead b).1)
    else if s.left == 1
    then (idle, (s.point * 64 + b % 64) ∷ [])
    else (
      record { left = s.left - 1; lower = 0x80; upper = 0xbf; point = s.point * 64 + b % 64 },
      [],
    )

unfoldable pub utf8_byte : Utf8 → ℕ → Utf8 × Text
unfolding lead follow
utf8_byte s b = if s.left == 0 then lead b else follow s b

unfoldable pub utf8_bytes : Utf8 → Bytes → Utf8 × Text
utf8_bytes s [] = (s, [])
utf8_bytes s (b ∷ bs) =
    ((utf8_bytes (utf8_byte s b).0 bs).0, (utf8_byte s b).1 ++ (utf8_bytes (utf8_byte s b).0 bs).1)

-- The decoder between two calls; `begun` says whether a character has come out.
pub record Decoder : Type 0 where
  pub utf8 : Utf8
  pub begun : Bool

abbrev pub new_decoder : Decoder
new_decoder = record { utf8 = idle; begun = false }

abbrev pub after_mark : Bool → Text → Bool × Text
after_mark true cs = (true, cs)
after_mark false [] = (false, [])
after_mark false (c ∷ cs) = (true, if c == 0xfeff then cs else c ∷ cs)

-- `decoder.decode(bytes, { stream: true })`
unfoldable pub decode : Decoder → Bytes → Decoder × Text
unfolding utf8_byte utf8_bytes
decode d bytes =
    let r = utf8_bytes d.utf8 bytes in
    let m = after_mark d.begun r.1 in (record { utf8 = r.0; begun = m.0 }, m.1)

-- The calls for one chunk after the other, and what they return together.
unfoldable pub decode_all : Decoder → List Bytes → Decoder × Text
unfolding decode
decode_all d [] = (d, [])
decode_all d (c ∷ cs) =
    ((decode_all (decode d c).0 cs).0, (decode d c).1 ++ (decode_all (decode d c).0 cs).1)
