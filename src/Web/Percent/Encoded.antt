-- ===== src/Web/Percent/Encoded.antt =====
-- What encodeURIComponent can encode, and what it leaves out.
use open_console.Prelude.{
  ◌++◌, ◌<◌, ◌==◌, All, All-append, Bool-cases, Bytes, Text, [], arith, false, inl, inr, refl, some,
  true, ℕ, ◌∷◌, ◌≡◌,
}
use open_console.Web.Utf8.{utf8_char, is_scalar}
use open_console.Web.Percent.{escaped, hex_digit, encode_char, unreserved, encode_uri_component}
use open_console.Web.Percent.Characters.{utf8_char-lt}

abbrev pub HasNoSlash : Text → Type 0
HasNoSlash = All (λ c. c == b'/' ≡ false)

hex_digit_no_slash : (d : ℕ) → d < 16 → hex_digit d == b'/' ≡ false
hex_digit_no_slash d h = ground arith

escaped-HasNoSlash : (bs : Bytes) → All (λ b. b < 256) bs → HasNoSlash (escaped bs)
escaped-HasNoSlash [] h = tt
escaped-HasNoSlash (b ∷ bs) h = (
  refl,
  (
    hex_digit_no_slash _ (omega arith),
    (hex_digit_no_slash _ (omega arith), escaped-HasNoSlash bs h.1),
  ),
)

unreserved_no_slash : (c : ℕ) → unreserved c ≡ true → c == b'/' ≡ false
unfolding unreserved
unreserved_no_slash c h = ground arith

encode_char_total :
    (c : ℕ) → is_scalar c ≡ true → (t : Text) × (encode_char c ≡ some t) × HasNoSlash t
unfolding encode_char
encode_char_total c h = elim (Bool-cases (unreserved c)) [
  | inl free ↦ (c ∷ [], rw free, (unreserved_no_slash c free, tt))
  | inr coded ↦ (escaped (utf8_char c), rw (coded, h), escaped-HasNoSlash _ (utf8_char-lt c h))
]

-- Every text with no lone surrogate can be encoded, and no slash is left in what comes out.
pub encode_total :
    (s : Text)
    → All (λ c. is_scalar c ≡ true) s
    → (t : Text) × (encode_uri_component s ≡ some t) × HasNoSlash t
unfolding encode_uri_component
encode_total [] h = ([], refl, tt)
encode_total (c ∷ s) h =
    let (a, x, m) = encode_char_total c h.0 in
    let (b, y, n) = encode_total s h.1 in (a ++ b, rw (x, y), All-append _ a b m n)
