-- ===== src/Relay/Id.antt =====
-- internal/session/id.go: the identifiers and tokens that the relay makes, and the shape it asks of
-- an identifier that a client sends.
--
-- `idEncoding` with strings.ToLower is base32 in lower case without padding, which Web.Base32 has.
-- The random bytes are an argument: `none` is the error of crypto/rand.
pub mod Shape
use open_console.Prelude.{
  ◌&&◌, ◌*◌, ◌+◌, ◌/◌, ◌==◌, Bool, Bytes, Option, Text, [], false, if◌then◌else◌, leb, length, none,
  not, some, true, ◌||◌, ℕ, ◌∷◌,
}
use open_console.Web.Base32.{encode_base32}

abbrev pub id_bytes : ℕ
id_bytes = 16

abbrev pub token_bytes : ℕ
token_bytes = 32

-- `idEncoding.EncodedLen(idBytes)`
abbrev pub id_length : ℕ
id_length = (id_bytes * 8 + 4) / 5

-- `NewID` and `NewToken`, on what `rand.Read` put into the buffer.
unfoldable pub new_id : Option Bytes → Option Text
new_id none = none
new_id (some b) = some (encode_base32 b)

unfoldable pub new_token : Option Bytes → Option Text
new_token none = none
new_token (some b) = some (encode_base32 b)

abbrev pub is_id_char : ℕ → Bool
is_id_char c = (leb b'a' c && leb c b'z') || (leb b'2' c && leb c b'7')

unfoldable pub all_id_chars : Text → Bool
all_id_chars [] = true
all_id_chars (c ∷ cs) = if not (is_id_char c) then false else all_id_chars cs

-- The identifier's bytes are its characters: one that is not ASCII has bytes from 128 on, which
-- the loop refuses.
unfoldable pub valid_id : Text → Bool
unfolding all_id_chars
valid_id s = if not (length s == id_length) then false else all_id_chars s
