-- ===== src/E2e/Interop.antt =====
-- The keys of internal/e2e and those of web/src/crypto.ts open each other's frames.
use mathlib.Core.Option.{some-injective, none-ne-some}
use open_console.Prelude.{
  Bool, Bytes, Option, Text, ap, drop, false, if◌then◌else◌, length, ltb, none, refl, some, take,
  true, ℕ, ◌∙◌, ◌≡◌,
}
use open_console.Web.Utf8.{text_encode}
use open_console.Web.Crypto
use open_console.Web.Crypto.{WebCrypto, KeyKind, root, viewer}
use open_console.Web.Crypto.Sealing.{open_frame-seal}
use open_console.E2e.{
  Session, Result, ok, err, key_size, nonce_size, from_root_key, viewer_key, derive, aead_from,
  seal, open_sealed, seal_host_to_guest, open_guest_to_host, cannot_decrypt, or_decrypt,
  channel_aad, info_host_to_guest, info_guest_to_host,
}

module _ (w : WebCrypto) where
  -- The two sides of a session: the host's keys, and the keys of a guest in the browser.
  seal-seal :
      (key : w.CryptoKey) (channel : ℕ) (nonce plaintext : Bytes)
      → seal w key channel (some nonce) plaintext ≡ ok (Crypto.seal w key channel nonce plaintext)
  unfolding seal Crypto.seal
  seal-seal key channel nonce plaintext = refl

  abbrev pub plain_of : Crypto.Result Bytes → Option Bytes
  plain_of (Crypto.ok b) = some b
  plain_of (Crypto.err e) = none

  abbrev pub opened : Result Bytes → Option Bytes
  opened (ok b) = some b
  opened (err e) = none

  -- Both sides open a frame under the same key and channel alike.
  open_sealed-open_frame :
      (key : w.CryptoKey) (channel : ℕ) (sealed : Bytes)
      → opened (open_sealed w key channel sealed)
        ≡ plain_of (Crypto.open_frame w key channel sealed)
  unfolding open_sealed Crypto.open_frame
  open_sealed-open_frame key channel sealed =
      by_size (ltb (length sealed) 28)
        (w.decrypt key (take 12 sealed) (channel_aad channel) (drop 12 sealed))
    where
      by_size :
          (short : Bool) (r : Option Bytes)
          → opened (if short then err cannot_decrypt else or_decrypt w r)
            ≡ plain_of (if short then Crypto.err Crypto.too_short else Crypto.or_could_not w r)
      by_size true r = refl
      by_size false none = refl
      by_size false (some b) = refl

  derived_aead :
      (id info : Text) (root_key : Bytes)
      → aead_from w id root_key info ≡ ok (Crypto.derive_key w id root_key info)
  unfolding aead_from Crypto.derive_key
  derived_aead id info root_key =
      rw (w.length-hkdf root_key (text_encode id) (text_encode info) key_size) refl

  abbrev host_session : Text → Bytes → Session w
  host_session id root_key = record {
    host_to_guest = Crypto.derive_key w id root_key info_host_to_guest;
    guest_to_host = some (Crypto.derive_key w id root_key info_guest_to_host);
  }

  host_made :
      (id : Text) (root_key : Bytes)
      → length root_key ≡ key_size
      → from_root_key w id root_key ≡ ok (host_session id root_key)
  unfolding from_root_key
  host_made id root_key h =
      rw
        (
          h,
          derived_aead id info_host_to_guest root_key,
          derived_aead id info_guest_to_host root_key,
        )
        refl

  -- What opens on the browser's side with a result opens on the Go side with the same.
  open_sealed-ok :
      (key : w.CryptoKey) (channel : ℕ) (sealed plaintext : Bytes)
      → Crypto.open_frame w key channel sealed ≡ Crypto.ok plaintext
      → open_sealed w key channel sealed ≡ ok plaintext
  open_sealed-ok key channel sealed plaintext h =
      opened-ok _ plaintext (open_sealed-open_frame key channel sealed ∙ ap plain_of h)
    where
      opened-ok : (r : Result Bytes) (b : Bytes) → opened r ≡ some b → r ≡ ok b
      opened-ok (ok a) b e = ap ok (some-injective a b e)
      opened-ok (err x) b e = absurd (none-ne-some b e)

  -- A host of the Go side with a root key of 32 bytes, and the browsers of a guest, with that key,
  -- and of a viewer, with the key that the host derives for viewers, all get their keys. With a
  -- nonce of 12 bytes, what the host seals both browsers open, and what the guest's browser seals
  -- the host opens.
  pub sealed_across :
      (id : Text) (root_key : Bytes) (channel : ℕ) (nonce plaintext : Bytes)
      → length root_key ≡ key_size
      → length nonce ≡ nonce_size
      → (h : Session w) × (k : Bytes) × (g v : Crypto.Session w) × (from_root_key w id root_key
          ≡ ok h)
        × (viewer_key w id root_key ≡ ok k)
        × (Crypto.from_ticket_key w id root_key root ≡ Crypto.ok g)
        × (Crypto.from_ticket_key w id k viewer ≡ Crypto.ok v)
        × ((sealed : Bytes) × (seal_host_to_guest w (some h) channel (some nonce) plaintext
              ≡ ok sealed)
            × (Crypto.open_from_host w g channel sealed ≡ Crypto.ok plaintext)
            × (Crypto.open_from_host w v channel sealed ≡ Crypto.ok plaintext))
        × ((sealed : Bytes) × (Crypto.seal_to_host w g channel nonce plaintext ≡ Crypto.ok sealed)
            × (open_guest_to_host w (some h) channel sealed ≡ ok plaintext))
  unfolding viewer_key derive Crypto.from_ticket_key Crypto.derive_key seal_host_to_guest
      Crypto.open_from_host Crypto.seal_to_host open_guest_to_host
  sealed_across id root_key channel nonce plaintext h n =
      let out = Crypto.derive_key w id root_key info_host_to_guest in
      let inward = Crypto.derive_key w id root_key info_guest_to_host in
      let opens = (open_frame-seal w out channel nonce plaintext n).0 in
      (
        host_session id root_key,
        derive w id root_key info_host_to_guest,
        record { host_to_guest = out; guest_to_host = some inward },
        record { host_to_guest = out; guest_to_host = none },
        host_made id root_key h,
        rw h refl,
        rw h refl,
        rw (w.length-hkdf root_key (text_encode id) (text_encode info_host_to_guest) key_size) refl,
        (
          Crypto.seal w out channel nonce plaintext,
          seal-seal out channel nonce plaintext,
          opens,
          opens,
        ),
        (
          Crypto.seal w inward channel nonce plaintext,
          refl,
          open_sealed-ok inward channel _ plaintext
              (open_frame-seal w inward channel nonce plaintext n).0,
        ),
      )
