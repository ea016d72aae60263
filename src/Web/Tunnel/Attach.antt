-- ===== src/Web/Tunnel/Attach.antt =====
-- What the relay's acknowledgement leads to, and how a session can end twice.
use open_console.Prelude.{
  ◌&&◌, ◌++◌, All, Bool, List, Option, [], ap, codes, false, if◌then◌else◌, none, not, refl, some,
  true, ◌||◌, ◌∙◌, ◌∷◌, ◌≡◌, ◌≢◌,
}
use open_console.Web.Json.{Json, truthy}
use open_console.Web.Protocol.{FrameType, Frame}
use open_console.Web.Protocol
use open_console.Web.Crypto.{WebCrypto}
use open_console.Web.Tunnel.State.{
  Tunnel, Effect, Options, access, connected, fail, status, closed, missing_key, unexpected_key,
  Ending, closed_early,
}
use open_console.Web.Tunnel.{
  handle_as, handle_open, cannot_write, attach, deliver, deliver_from, handle, has_crypto, on_close,
  lose_connection, report_end,
}
use open_console.Web.Tunnel.Frames.{prop, is_text, close_reason, json_of}
use open_console.Web.Tunnel.Moves.{ending-close_tunnel}
use open_console.Web.Tunnel.Quiet.{Quiet}

-- Effects by which the page would take the session for attached.
abbrev pub IsNotAttached : Effect → Type 0
IsNotAttached (status connected r) = ⊥
IsNotAttached (access b) = ⊥
IsNotAttached _ = Unit

-- The outcome of an acknowledgement.
abbrev pub says_encrypted : Option Json → Bool
says_encrypted ack = truthy (prop (codes "encrypted") ack)

abbrev pub grants_guest : Option Json → Bool
grants_guest ack = is_text (codes "guest") (prop (codes "role") ack)

module _ (w : WebCrypto) (o : Options w) (ack : Option Json) (t : Tunnel) where
  pub record Refused (u : Tunnel) : Type 0 where
    pub added : List Effect
    pub log : u.log ≡ t.log ++ added
    pub not_attached : All IsNotAttached added
    pub ended : u.ending ≢ none
    pub let_go : u.ws ≡ false

  pub record Attached (u : Tunnel) : Type 0 where
    pub log :
        u.log
        ≡ (t.log ++ access (not (grants_guest ack) || cannot_write w o) ∷ [])
          ++ status connected none ∷ []
    pub limited : u.read_only ≡ (not (grants_guest ack) || cannot_write w o)
    pub same_end : u.ending ≡ t.ending

  -- Where they agree, the session is attached, and its access is the narrower of what the relay
  -- grants and what the ticket's keys allow.
  pub agreement-Attached : says_encrypted ack ≡ has_crypto w o → Attached (handle_open w o ack t)
  unfolding handle_open
  agreement-Attached n = by_keys (says_encrypted ack) (has_crypto w o) n
    where
      t' : Tunnel
      t' = record t { opened = true }

      by_keys :
          (e k : Bool)
          → e ≡ k
          → Attached (
              if e && not k
              then fail missing_key t'
              else if not e && k
              then fail unexpected_key t'
              else attach w o ack t')
      by_keys true false d = cc
      by_keys false true d = cc
      by_keys true true d = record { log = refl; limited = refl; same_end = refl }
      by_keys false false d = record { log = refl; limited = refl; same_end = refl }

module _ (w : WebCrypto) (o : Options w) where
  handle-close :
      (f : Frame) (t : Tunnel)
      → f.type ≡ Protocol.close
      → (handle w o f t).ending
        ≡ some (record { reason = close_reason (json_of f.payload); graceful = true })
  handle-close f t h = rw h (
      unfold handle_as in
      ending-close_tunnel (record t {
        ending = some (record { reason = close_reason (json_of f.payload); graceful = true });
      }))

  on_close-ended :
      (e : Ending) (u : Tunnel) → u.ending ≡ some e → on_close w o u ≡ report_end w o e u
  unfolding on_close
  on_close-ended e u h = by_ending u.ending h
    where
      by_ending :
          (x : Option Ending)
          → x ≡ some e
          → elim x [
            | some x ↦ report_end w o x u
            | none ↦ if not u.opened then fail closed_early u else lose_connection w o u
          ]
            ≡ report_end w o e u
      by_ending none k = cc
      by_ending (some y) k = cc

  deliver-cons :
      (f : Frame) (fs : List Frame) (t : Tunnel)
      → t.inbound ≡ f ∷ fs
      → deliver w o t ≡ handle w o f (record t { inbound = fs })
  unfolding deliver
  deliver-cons f fs t h = ap (λ q. deliver_from w o q t) h

  -- A queued CLOSE frame replaces whatever ending the tunnel has, a failure to decrypt included, by
  -- a graceful one; when the socket is gone, the last that the page is told is that the session
  -- closed normally.
  pub close_replaces_ending :
      (f : Frame) (fs : List Frame) (t : Tunnel)
      → t.inbound ≡ f ∷ fs
      → f.type ≡ Protocol.close
      → (on_close w o (deliver w o t)).log
        ≡ (deliver w o t).log ++ status closed (some (close_reason (json_of f.payload))) ∷ []
  close_replaces_ending f fs t h k =
      ap (λ u. u.log)
        (on_close-ended (record { reason = close_reason (json_of f.payload); graceful = true })
          (deliver w o t)
          (ap (λ u. u.ending) (deliver-cons f fs t h)
            ∙ handle-close f (record t { inbound = fs }) k))
