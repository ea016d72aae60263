-- ===== src/Web/Utf8.antt =====
-- UTF-8, as TextEncoder, encodeURIComponent and decodeURIComponent use it in web/src.
use open_console.Prelude.{
  ◌%◌, ◌&&◌, ◌+◌, ◌++◌, ◌/◌, Bool, Bytes, Text, [], if◌then◌else◌, leb, ltb, ◌||◌, ℕ, ◌∷◌,
}

-- A code point that stands for a character: in range and no surrogate.
abbrev pub is_scalar : ℕ → Bool
is_scalar c = ltb c 0xd800 || (leb 0xe000 c && ltb c 0x110000)

unfoldable pub utf8_char : ℕ → Bytes
utf8_char c =
    if ltb c 0x80
    then c ∷ []
    else if ltb c 0x800
    then (0xc0 + c / 64) ∷ (0x80 + c % 64) ∷ []
    else if ltb c 0x10000
    then (0xe0 + c / 4096) ∷ (0x80 + c / 64 % 64) ∷ (0x80 + c % 64) ∷ []
    else (0xf0 + c / 262144) ∷ (0x80 + c / 4096 % 64) ∷ (0x80 + c / 64 % 64) ∷ (0x80 + c % 64) ∷ []

-- `new TextEncoder().encode(s)`: a lone surrogate becomes U+FFFD.
unfoldable pub text_encode : Text → Bytes
unfolding utf8_char
text_encode [] = []
text_encode (c ∷ cs) = utf8_char (if is_scalar c then c else 0xfffd) ++ text_encode cs
