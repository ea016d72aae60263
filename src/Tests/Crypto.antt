-- ===== src/Tests/Crypto.antt =====
-- A toy WebCrypto, which shows that the assumed laws can be met, and the crypto theorems at it.
use open_console.Prelude.{
  ◌%◌, ◌+◌, ◌++◌, Bytes, Option, Text, [], ap, arith, codes, drop, if◌then◌else◌, length, none,
  refl, some, suc, take, text_eq, text_eq_iff, zero, ℕ, ◌∷◌, ◌≡◌,
}
use open_console.Web.Crypto.{
  WebCrypto, Session, could_not_decrypt, err, from_ticket_key, ok, open_frame, root, seal, viewer,
}

abbrev pub first_byte : Bytes → ℕ
first_byte [] = 0
first_byte (b ∷ bs) = b

abbrev pub last_byte : Bytes → ℕ
last_byte [] = 0
last_byte (b ∷ []) = b
last_byte (b ∷ c ∷ bs) = last_byte (c ∷ bs)

-- Sixteen bytes that depend on the key, the nonce and the additional data.
abbrev pub toy_tag : Bytes → Bytes → Bytes → Bytes
toy_tag key iv aad =
    first_byte key
    ∷ first_byte iv
    ∷ last_byte aad
    ∷ 0
    ∷ 0
    ∷ 0
    ∷ 0
    ∷ 0
    ∷ 0
    ∷ 0
    ∷ 0
    ∷ 0
    ∷ 0
    ∷ 0
    ∷ 0
    ∷ 0
    ∷ []

abbrev pub toy_encrypt : Bytes → Bytes → Bytes → Bytes → Bytes
toy_encrypt key iv aad plain = toy_tag key iv aad ++ plain

abbrev pub toy_decrypt : Bytes → Bytes → Bytes → Bytes → Option Bytes
toy_decrypt key iv aad sealed =
    if text_eq (take 16 sealed) (toy_tag key iv aad) then some (drop 16 sealed) else none

abbrev pub repeat : ℕ → ℕ → Bytes
repeat b zero = []
repeat b (suc n) = b ∷ repeat b n

pub length-repeat : (b n : ℕ) → length (repeat b n) ≡ n
length-repeat b zero = refl
length-repeat b (suc n) = ap suc (length-repeat b n)

abbrev pub toy_hkdf : Bytes → Bytes → Bytes → ℕ → Bytes
toy_hkdf root_key salt info size =
    repeat ((first_byte root_key + last_byte salt + last_byte info) % 256) size

pub toy_law :
    (key iv aad plain : Bytes) → toy_decrypt key iv aad (toy_encrypt key iv aad plain) ≡ some plain
toy_law key iv aad plain = rw ((text_eq_iff (toy_tag key iv aad) (toy_tag key iv aad)).1 refl)

pub toy_length :
    (key iv aad plain : Bytes) → length (toy_encrypt key iv aad plain) ≡ length plain + 16
toy_length key iv aad plain = omega arith

abbrev pub toy : WebCrypto
toy = record {
  CryptoKey = Bytes;
  import_raw = λ raw. raw;
  hkdf = toy_hkdf;
  encrypt = toy_encrypt;
  decrypt = toy_decrypt;
  length-encrypt = toy_length;
  length-hkdf = λ root_key salt info size. length-repeat _ size;
  decrypt-encrypt = toy_law;
}

abbrev pub nonce : Bytes
nonce = repeat 9 12

abbrev pub ticket_key : Bytes
ticket_key = repeat 7 32

abbrev id : Text
id = codes "abc"

-- The additional data ties a frame to its channel.
other_channel :
    open_frame toy ticket_key 4 (seal toy ticket_key 3 nonce (codes "ls")) ≡ err could_not_decrypt
unfolding open_frame seal
other_channel = refl

abbrev pub watching : Session toy
watching = record { host_to_guest = ticket_key; guest_to_host = none }

watching_made : from_ticket_key toy id ticket_key viewer ≡ ok watching
unfolding from_ticket_key
watching_made = refl

abbrev typing : Session toy
typing = record {
  host_to_guest = repeat ((7 + b'c' + b't') % 256) 32;
  guest_to_host = some (repeat ((7 + b'c' + b't') % 256) 32);
}

typing_made : from_ticket_key toy id ticket_key root ≡ ok typing
unfolding from_ticket_key
typing_made = refl
