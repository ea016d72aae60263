-- ===== src/E2e.antt =====
-- internal/e2e/e2e.go: how hosts and the guests of the command line encrypt a terminal.
--
-- AES-256-GCM and HKDF-SHA256 are standards, which crypto/cipher and golang.org/x/crypto/hkdf
-- implement as WebCrypto does, so both sides take them from the same record: a `CryptoKey` is a
-- cipher.AEAD, `encrypt` is Seal and `decrypt` is Open. A nil Session is `none`.
pub mod Interop
use open_console.Prelude.{
  ◌%◌, ◌+◌, ◌++◌, ◌/◌, ◌==◌, Bool, Bytes, Option, Text, [], ◌^◌, codes, drop, false, if◌then◌else◌,
  length, ltb, none, not, some, take, true, ℕ, ◌∷◌,
}
use open_console.Web.Crypto.{WebCrypto}
use open_console.Web.Utf8.{text_encode}

abbrev pub key_size : ℕ
key_size = 32

abbrev pub nonce_size : ℕ
nonce_size = 12

abbrev pub tag_size : ℕ
tag_size = 16

abbrev pub info_host_to_guest : Text
info_host_to_guest = codes "openconsole/v1 host-to-guest"

abbrev pub info_guest_to_host : Text
info_guest_to_host = codes "openconsole/v1 guest-to-host"

-- `rand_failed` is an error of crypto/rand.
pub data Error : Type 0 where
  no_key cannot_decrypt bad_key rand_failed : Error

pub data Result {ℓ} (A : Type ℓ) : Type ℓ where
  ok : A → Result A
  err : Error → Result A

-- `channelAAD`
abbrev pub channel_aad : ℕ → Bytes
channel_aad channel =
    (channel / 2 ^ 24 % 256)
    ∷ (channel / 2 ^ 16 % 256)
    ∷ (channel / 2 ^ 8 % 256)
    ∷ (channel % 256)
    ∷ []

module _ (w : WebCrypto) where
  open w use {CryptoKey, import_raw, hkdf, encrypt, decrypt}

  pub record Session : Type 0 where
    pub host_to_guest : CryptoKey
    pub guest_to_host : Option CryptoKey

  unfoldable pub derive : Text → Bytes → Text → Bytes
  unfolding text_encode
  derive session_id root_key info =
      hkdf root_key (text_encode session_id) (text_encode info) key_size

  unfoldable pub new_aead : Bytes → Result CryptoKey
  new_aead key = if not (length key == key_size) then err bad_key else ok (import_raw key)

  unfoldable pub aead_from : Text → Bytes → Text → Result CryptoKey
  unfolding derive new_aead
  aead_from session_id root_key info = new_aead (derive session_id root_key info)

  abbrev pub both : Result CryptoKey → Result CryptoKey → Result Session
  both (err e) inward = err e
  both (ok outward) (err e) = err e
  both (ok outward) (ok inward) =
      ok (record { host_to_guest = outward; guest_to_host = some inward })

  unfoldable pub from_root_key : Text → Bytes → Result Session
  unfolding aead_from
  from_root_key session_id root_key =
      if not (length root_key == key_size)
      then err bad_key
      else both (aead_from session_id root_key info_host_to_guest)
          (aead_from session_id root_key info_guest_to_host)

  abbrev pub reading : Result CryptoKey → Result Session
  reading (err e) = err e
  reading (ok outward) = ok (record { host_to_guest = outward; guest_to_host = none })

  unfoldable pub from_viewer_key : Bytes → Result Session
  unfolding new_aead
  from_viewer_key viewer_key =
      if not (length viewer_key == key_size) then err bad_key else reading (new_aead viewer_key)

  unfoldable pub viewer_key : Text → Bytes → Result Bytes
  unfolding derive
  viewer_key session_id root_key =
      if not (length root_key == key_size)
      then err bad_key
      else ok (derive session_id root_key info_host_to_guest)

  abbrev pub has_key : Option CryptoKey → Bool
  has_key none = false
  has_key (some key) = true

  abbrev pub can_write : Option Session → Bool
  can_write none = false
  can_write (some s) = has_key s.guest_to_host

  -- `random` and `nonce` are what crypto/rand filled in, if it did.
  unfoldable pub seal : CryptoKey → ℕ → Option Bytes → Bytes → Result Bytes
  seal key channel none plaintext = err rand_failed
  seal key channel (some nonce) plaintext =
      ok (nonce ++ encrypt key nonce (channel_aad channel) plaintext)

  abbrev pub or_decrypt : Option Bytes → Result Bytes
  or_decrypt none = err cannot_decrypt
  or_decrypt (some plaintext) = ok plaintext

  unfoldable pub open_sealed : CryptoKey → ℕ → Bytes → Result Bytes
  open_sealed key channel sealed =
      if ltb (length sealed) (nonce_size + tag_size)
      then err cannot_decrypt
      else or_decrypt
          (decrypt key (take nonce_size sealed) (channel_aad channel) (drop nonce_size sealed))

  unfoldable pub seal_host_to_guest : Option Session → ℕ → Option Bytes → Bytes → Result Bytes
  unfolding seal
  seal_host_to_guest none channel random plaintext = ok plaintext
  seal_host_to_guest (some s) channel random plaintext =
      seal s.host_to_guest channel random plaintext

  unfoldable pub open_host_to_guest : Option Session → ℕ → Bytes → Result Bytes
  unfolding open_sealed
  open_host_to_guest none channel sealed = ok sealed
  open_host_to_guest (some s) channel sealed = open_sealed s.host_to_guest channel sealed

  abbrev pub seal_with : Option CryptoKey → ℕ → Option Bytes → Bytes → Result Bytes
  seal_with none channel random plaintext = err no_key
  seal_with (some key) channel random plaintext = seal key channel random plaintext

  unfoldable pub seal_guest_to_host : Option Session → ℕ → Option Bytes → Bytes → Result Bytes
  unfolding seal
  seal_guest_to_host none channel random plaintext = ok plaintext
  seal_guest_to_host (some s) channel random plaintext =
      seal_with s.guest_to_host channel random plaintext

  abbrev pub open_with : Option CryptoKey → ℕ → Bytes → Result Bytes
  open_with none channel sealed = err no_key
  open_with (some key) channel sealed = open_sealed key channel sealed

  unfoldable pub open_guest_to_host : Option Session → ℕ → Bytes → Result Bytes
  unfolding open_sealed
  open_guest_to_host none channel sealed = ok sealed
  open_guest_to_host (some s) channel sealed = open_with s.guest_to_host channel sealed
