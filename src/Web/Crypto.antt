-- ===== src/Web/Crypto.antt =====
-- web/src/crypto.ts: the keys of a session, and sealing and opening a frame.
--
-- WebCrypto is a parameter. The promises are left out: a result that rejects is an error value.
pub mod Sealing
use open_console.Prelude.{
  ◌+◌, ◌++◌, ◌==◌, Bool, Bytes, Option, Text, codes, drop, false, if◌then◌else◌, length, ltb, none,
  not, some, take, true, ℕ, ◌≡◌,
}
use open_console.Web.Utf8.{text_encode}
use open_console.Web.Protocol.{be32}

abbrev pub key_size : ℕ
key_size = 32

abbrev pub nonce_size : ℕ
nonce_size = 12

abbrev pub tag_size : ℕ
tag_size = 16

abbrev pub info_host_to_guest : Text
info_host_to_guest = codes "openconsole/v1 host-to-guest"

abbrev pub info_guest_to_host : Text
info_guest_to_host = codes "openconsole/v1 guest-to-host"

-- What `crypto.subtle` provides. `hkdf root salt info size` are the derived bytes; a key has been
-- imported from raw bytes; `decrypt` has no result where the promise rejects.
pub record WebCrypto : Type 1 where
  pub CryptoKey : Type 0
  pub import_raw : Bytes → CryptoKey
  pub hkdf : Bytes → Bytes → Bytes → ℕ → Bytes
  pub encrypt : CryptoKey → Bytes → Bytes → Bytes → Bytes
  pub decrypt : CryptoKey → Bytes → Bytes → Bytes → Option Bytes
  pub length-encrypt :
      (key : CryptoKey) (iv aad plain : Bytes)
      → length (encrypt key iv aad plain) ≡ length plain + tag_size
  pub length-hkdf : (root salt info : Bytes) (size : ℕ) → length (hkdf root salt info size) ≡ size
  pub decrypt-encrypt :
      (key : CryptoKey) (iv aad plain : Bytes)
      → decrypt key iv aad (encrypt key iv aad plain) ≡ some plain

pub data CryptoError : Type 0 where
  bad_key_size : ℕ → CryptoError
  read_only too_short could_not_decrypt : CryptoError

pub data Result {ℓ} (A : Type ℓ) : Type ℓ where
  ok : A → Result A
  err : CryptoError → Result A

-- `KeyKind`.
pub data KeyKind : Type 0 where
  root viewer : KeyKind

-- `channelAAD`; `>>> 0` takes the channel to a uint32, which `be32` does too.
unfoldable pub channel_aad : ℕ → Bytes
unfolding be32
channel_aad channel = be32 channel

module _ (w : WebCrypto) where
  open w use {CryptoKey, import_raw, hkdf, encrypt, decrypt}

  -- `Session`: the second key is absent for a viewer.
  pub record Session : Type 0 where
    pub host_to_guest : CryptoKey
    pub guest_to_host : Option CryptoKey

  unfoldable pub derive_key : Text → Bytes → Text → CryptoKey
  unfolding text_encode
  derive_key session_id root_key info =
      import_raw (hkdf root_key (text_encode session_id) (text_encode info) key_size)

  unfoldable pub from_ticket_key : Text → Bytes → KeyKind → Result Session
  unfolding derive_key
  from_ticket_key session_id key kind =
      if not (length key == key_size) then err (bad_key_size (length key)) else elim kind [
        | viewer ↦ ok (record { host_to_guest = import_raw key; guest_to_host = none })
        | root ↦ ok (record {
          host_to_guest = derive_key session_id key info_host_to_guest;
          guest_to_host = some (derive_key session_id key info_guest_to_host);
        })
      ]

  unfoldable pub can_write : Session → Bool
  can_write s = elim s.guest_to_host [ none ↦ false | some k ↦ true ]

  -- `nonce` is what `getRandomValues` filled in.
  unfoldable pub seal : CryptoKey → ℕ → Bytes → Bytes → Bytes
  unfolding channel_aad
  seal key channel nonce plaintext = nonce ++ encrypt key nonce (channel_aad channel) plaintext

  abbrev pub or_could_not : Option Bytes → Result Bytes
  or_could_not none = err could_not_decrypt
  or_could_not (some plain) = ok plain

  unfoldable pub open_frame : CryptoKey → ℕ → Bytes → Result Bytes
  unfolding channel_aad
  open_frame key channel sealed =
      if ltb (length sealed) (nonce_size + tag_size)
      then err too_short
      else or_could_not
          (decrypt key (take nonce_size sealed) (channel_aad channel) (drop nonce_size sealed))

  unfoldable pub open_from_host : Session → ℕ → Bytes → Result Bytes
  unfolding open_frame
  open_from_host s channel sealed = open_frame s.host_to_guest channel sealed

  unfoldable pub seal_to_host : Session → ℕ → Bytes → Bytes → Result Bytes
  unfolding seal
  seal_to_host s channel nonce plaintext = elim s.guest_to_host [
    | none ↦ err read_only
    | some key ↦ ok (seal key channel nonce plaintext)
  ]
