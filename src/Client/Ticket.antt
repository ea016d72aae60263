-- ===== src/Client/Ticket.antt =====
-- internal/client/ticket.go: how the command line client writes a ticket.
--
-- The fields are ASCII, so that bytes are characters. `keyEncoding` with strings.ToLower is base32 in
-- lower case without padding, which Web.Base32 has.
pub mod Pasted
pub mod Issued
use open_console.Prelude.{
  ◌&&◌, ◌++◌, ◌==◌, Bool, Bytes, Text, if◌then◌else◌, length, ltb, not, ℕ, ◌∷◌,
}
use open_console.Web.Base32.{encode_base32}

-- The values of `KeyKind`, a byte.
abbrev pub key_none : ℕ
key_none = 0

pub record Ticket : Type 0 where
  pub session_id : Text
  pub token : Text
  pub key : Bytes
  pub key_kind : ℕ

-- `Encrypted`
abbrev pub encrypted : Ticket → Bool
encrypted t = ltb 0 (length t.key) && not (t.key_kind == key_none)

-- `String`
unfoldable pub string : Ticket → Text
unfolding encode_base32
string t =
    let s = t.session_id ++ b'.' ∷ t.token in
    if not (encrypted t) then s else s ++ b'.' ∷ t.key_kind ∷ encode_base32 t.key

-- `Fragment`
unfoldable pub fragment : Ticket → Text
unfolding encode_base32
fragment t =
    if not (encrypted t) then t.token else t.token ++ b'.' ∷ t.key_kind ∷ encode_base32 t.key
