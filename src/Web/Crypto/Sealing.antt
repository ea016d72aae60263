-- ===== src/Web/Crypto/Sealing.antt =====
-- Sealing and opening belong together, and a viewer's keys only read.
use open_console.Prelude.{
  ◌+◌, ◌++◌, Bytes, Text, arith, drop, drop-append, false, length, length-append, ltb, none, refl,
  some, subst, take, take-append, ℕ, ◌≡◌,
}
use open_console.Web.Utf8.{text_encode}
use open_console.Web.Crypto.{
  WebCrypto, root, viewer, Session, ok, err, read_only, nonce_size, tag_size, key_size,
  from_ticket_key, can_write, seal, open_frame, open_from_host, seal_to_host, info_host_to_guest,
  derive_key, channel_aad, info_guest_to_host,
}

module _ (w : WebCrypto) where
  length-seal :
      (key : w.CryptoKey) (channel : ℕ) (nonce plaintext : Bytes)
      → length nonce ≡ nonce_size
      → length (seal w key channel nonce plaintext) ≡ length plaintext + (nonce_size + tag_size)
  unfolding seal
  length-seal key channel nonce plaintext h = omega (
    arith,
    length-append nonce (w.encrypt key nonce (channel_aad channel) plaintext),
    w.length-encrypt key nonce (channel_aad channel) plaintext,
  )

  not_short : (n m : ℕ) → n ≡ m + (nonce_size + tag_size) → ltb n (nonce_size + tag_size) ≡ false
  not_short n m h = ground arith

  -- A frame opens under the key and channel that it was sealed with, and gives the plaintext back,
  -- if the nonce has its size. The sealed frame is longer than the plaintext by nonce and tag.
  pub open_frame-seal :
      (key : w.CryptoKey) (channel : ℕ) (nonce plaintext : Bytes)
      → length nonce ≡ nonce_size
      → (open_frame w key channel (seal w key channel nonce plaintext) ≡ ok plaintext)
        × (length (seal w key channel nonce plaintext) ≡ length plaintext + (nonce_size + tag_size))
  unfolding open_frame seal
  open_frame-seal key channel nonce plaintext h =
      let sealed = w.encrypt key nonce (channel_aad channel) plaintext in
      let iv : take nonce_size (nonce ++ sealed) ≡ nonce =
        subst (λ n. take n (nonce ++ sealed) ≡ nonce) h (take-append nonce sealed) in
      let body : drop nonce_size (nonce ++ sealed) ≡ sealed =
        subst (λ n. drop n (nonce ++ sealed) ≡ sealed) h (drop-append nonce sealed) in
      let long = not_short _ (length plaintext) (length-seal key channel nonce plaintext h) in
      (
        rw (long, iv, body, w.decrypt-encrypt key nonce (channel_aad channel) plaintext),
        length-seal key channel nonce plaintext h,
      )

  -- A session made from a viewer key writes nothing: it reports that it cannot write, and sealing
  -- any input fails, whatever the channel and the nonce.
  pub viewer_cannot_seal :
      (session_id : Text) (key : Bytes) (s : Session w)
      → from_ticket_key w session_id key viewer ≡ ok s
      → (can_write w s ≡ false)
        × ((channel : ℕ) (nonce plaintext : Bytes)
            → seal_to_host w s channel nonce plaintext ≡ err read_only)
  unfolding from_ticket_key can_write seal_to_host
  viewer_cannot_seal session_id key s h = (ground arith, λ channel nonce plaintext. ground arith)

  -- What a root ticket's session seals opens under the derived guest-to-host key; so the host,
  -- which derives the same key, reads back what was typed.
  pub root_seals :
      (session_id : Text) (key : Bytes) (s : Session w) (channel : ℕ) (nonce plaintext : Bytes)
      → from_ticket_key w session_id key root ≡ ok s
      → length nonce ≡ nonce_size
      → (sealed : Bytes) × (seal_to_host w s channel nonce plaintext ≡ ok sealed)
        × (open_frame w (derive_key w session_id key info_guest_to_host) channel sealed
            ≡ ok plaintext)
  unfolding from_ticket_key seal_to_host
  root_seals session_id key s channel nonce plaintext h n =
      let write_key = derive_key w session_id key info_guest_to_host in
      (
        seal w write_key channel nonce plaintext,
        ground arith,
        (open_frame-seal write_key channel nonce plaintext n).0,
      )

  -- The viewer key that belongs to a root key: the derived bytes of the direction that reads.
  abbrev pub viewer_key : Text → Bytes → Bytes
  viewer_key session_id key =
      w.hkdf key (text_encode session_id) (text_encode info_host_to_guest) key_size

  -- The holders of a root ticket and of the viewer ticket that belongs to it see the same terminal:
  -- both have sessions, which open every frame from the host alike.
  pub viewer_reads_like_root :
      (session_id : Text) (key : Bytes)
      → length key ≡ key_size
      → (r v : Session w) × (from_ticket_key w session_id key root ≡ ok r)
        × (from_ticket_key w session_id (viewer_key session_id key) viewer ≡ ok v)
        × ((channel : ℕ) (sealed : Bytes)
            → open_from_host w r channel sealed ≡ open_from_host w v channel sealed)
  unfolding from_ticket_key derive_key open_from_host
  viewer_reads_like_root session_id key h =
      let read_key = derive_key w session_id key info_host_to_guest in
      (
        record {
          host_to_guest = read_key;
          guest_to_host = some (derive_key w session_id key info_guest_to_host);
        },
        record { host_to_guest = read_key; guest_to_host = none },
        ground arith,
        rw (w.length-hkdf key (text_encode session_id) (text_encode info_host_to_guest) key_size)
            refl,
        λ channel sealed. refl,
      )
