-- ===== src/Web/Percent.antt =====
-- encodeURIComponent and decodeURIComponent, as web/src/locator.ts calls them. A text is the list
-- of its code points; `none` is the URIError.
pub mod RoundTrip
pub mod Encoded
pub mod Characters
use open_console.Prelude.{
  ◌%◌, ◌&&◌, ◌*◌, ◌+◌, ◌++◌, ◌-◌, ◌/◌, ◌==◌, Bool, Bytes, List, Option, Text, [], codes, false,
  if◌then◌else◌, leb, ltb, none, not, some, ◌||◌, ℕ, ◌∷◌,
}
use open_console.Web.Utf8.{utf8_char, is_scalar}

unfoldable pub is_one_of : ℕ → Text → Bool
is_one_of c [] = false
is_one_of c (a ∷ rest) = a == c || is_one_of c rest

unfoldable pub unreserved : ℕ → Bool
unfolding is_one_of
unreserved c =
    (leb b'A' c && leb c b'Z')
    || (leb b'a' c && leb c b'z')
    || (leb b'0' c && leb c b'9')
    || is_one_of c (codes "-_.!~*'()")

abbrev pub hex_digit : ℕ → ℕ
hex_digit d = if ltb d 10 then b'0' + d else 55 + d

abbrev pub escaped : Bytes → Text
escaped [] = []
escaped (b ∷ bs) = b'%' ∷ hex_digit (b / 16) ∷ hex_digit (b % 16) ∷ escaped bs

unfoldable pub encode_char : ℕ → Option Text
unfolding unreserved utf8_char
encode_char c =
    if unreserved c
    then some (c ∷ [])
    else if is_scalar c
    then some (escaped (utf8_char c))
    else none

abbrev pub append_both : Option Text → Option Text → Option Text
append_both (some a) (some b) = some (a ++ b)
append_both _ _ = none

unfoldable pub encode_uri_component : Text → Option Text
encode_uri_component [] = some []
encode_uri_component (c ∷ cs) = append_both (encode_char c) (encode_uri_component cs)

-- Decoding, first from the text to characters and escaped bytes, then from these to a text.
pub data Token : Type 0 where
  plain byte : ℕ → Token

pub data Percent : Type 0 where
  outside after_percent : Percent
  after_digit : ℕ → Percent

unfoldable pub hex_value : ℕ → Option ℕ
hex_value c =
    if leb b'0' c && leb c b'9'
    then some (c - b'0')
    else if leb b'A' c && leb c b'F'
    then some (c - 55)
    else if leb b'a' c && leb c b'f'
    then some (c - 87)
    else none

abbrev pub digit_step : (ℕ → Percent × List Token) → Option ℕ → Option (Percent × List Token)
digit_step f none = none
digit_step f (some d) = some (f d)

unfoldable pub percent_step : Percent → ℕ → Option (Percent × List Token)
percent_step outside c =
    if c == b'%' then some (after_percent, []) else some (outside, plain c ∷ [])
percent_step after_percent c = digit_step (λ d. (after_digit d, [])) (hex_value c)
percent_step (after_digit h) c = digit_step (λ d. (outside, byte (h * 16 + d) ∷ [])) (hex_value c)

abbrev pub prepend {ℓ} : {A : Type ℓ} → List A → Option (List A) → Option (List A)
prepend xs none = none
prepend xs (some ys) = some (xs ++ ys)

unfoldable pub tokens : Percent → Text → Option (List Token)
tokens outside [] = some []
tokens _ [] = none
tokens p (c ∷ cs) = elim (percent_step p c) [
  | none ↦ none
  | some (q, ts) ↦ prepend ts (tokens q cs)
]

-- A UTF-8 sequence that is being read: the bytes to come, the bits so far, and the least code
-- point that needs a sequence of this length.
pub record Partial : Type 0 where
  pub need : ℕ
  pub acc : ℕ
  pub low : ℕ

abbrev pub between : Partial
between = record { need = 0; acc = 0; low = 0 }

abbrev pub first_byte : ℕ → Option (Partial × Text)
first_byte b =
    if ltb b 0x80
    then some (between, b ∷ [])
    else if ltb b 0xc0
    then none
    else if ltb b 0xe0
    then some (record { need = 1; acc = b - 0xc0; low = 0x80 }, [])
    else if ltb b 0xf0
    then some (record { need = 2; acc = b - 0xe0; low = 0x800 }, [])
    else if ltb b 0xf8
    then some (record { need = 3; acc = b - 0xf0; low = 0x10000 }, [])
    else none

abbrev pub next_byte : Partial → ℕ → Option (Partial × Text)
next_byte s b =
    let acc : ℕ = s.acc * 64 + (b - 0x80) in
    if not (leb 0x80 b && ltb b 0xc0)
    then none
    else if ltb 1 s.need
    then some (record { need = s.need - 1; acc = acc; low = s.low }, [])
    else if leb s.low acc && is_scalar acc
    then some (between, acc ∷ [])
    else none

unfoldable pub utf8_step : Partial → Token → Option (Partial × Text)
utf8_step s (plain c) = if s.need == 0 then some (between, c ∷ []) else none
utf8_step s (byte b) = if s.need == 0 then first_byte b else next_byte s b

unfoldable pub characters : Partial → List Token → Option Text
characters s [] = if s.need == 0 then some [] else none
characters s (t ∷ ts) = elim (utf8_step s t) [
  | none ↦ none
  | some (q, cs) ↦ prepend cs (characters q ts)
]

abbrev pub characters_of : Option (List Token) → Option Text
characters_of none = none
characters_of (some ts) = characters between ts

unfoldable pub decode_uri_component : Text → Option Text
unfolding hex_value tokens percent_step characters utf8_step
decode_uri_component s = characters_of (tokens outside s)
