-- ===== src/Relay/Id/Shape.antt =====
-- The identifiers that internal/session/id.go makes have the shape that it asks for.
use open_console.Prelude.{All, Bytes, Text, [], length, refl, some, true, ◌∷◌, ◌≡◌}
use open_console.Web.Base32.{encode_base32}
use open_console.Web.Base32.Letters.{letter, lower}
use open_console.Web.Base32.Tables.{each_letter, each_letter_at}
use open_console.Web.Base32.Output.{All-encode_base32, length-encode_base32}
use open_console.Relay.Id.{is_id_char, all_id_chars, valid_id, new_id, id_bytes}

id_table : each_letter (λ i. is_id_char (lower (letter i))) 32 ≡ true
unfolding each_letter letter
id_table = refl

all_id_chars-All : (s : Text) → All (λ c. is_id_char c ≡ true) s → all_id_chars s ≡ true
unfolding all_id_chars
all_id_chars-All [] h = refl
all_id_chars-All (c ∷ cs) h = rw h.0 (all_id_chars-All cs h.1)

all_id_chars-encode_base32 : (b : Bytes) → all_id_chars (encode_base32 b) ≡ true
all_id_chars-encode_base32 b =
    all_id_chars-All _ (All-encode_base32 _ b (λ d h. each_letter_at _ 32 d h id_table))

-- Sixteen random bytes, whatever they are, make an identifier, and ValidID accepts it.
pub valid_id-new_id :
    (b : Bytes)
    → length b ≡ id_bytes
    → (id : Text) × (new_id (some b) ≡ some id) × (valid_id id ≡ true)
unfolding new_id valid_id
valid_id-new_id b h =
    (encode_base32 b, refl, rw (length-encode_base32 b, h) (all_id_chars-encode_base32 b))
