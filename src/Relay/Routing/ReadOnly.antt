-- ===== src/Relay/Routing/ReadOnly.antt =====
-- What comes from a read-only guest never reaches the host of internal/session.
use open_console.Prelude.{
  ◌==◌, Bool, Bytes, Option, Text, [], false, if-cases, not, refl, some, ℕ, ◌≡◌, ◌≢◌,
}
use open_console.Relay.Manager.{Manager, Session}
use open_console.Relay.Auth.{Access, Role, authenticate, granted}
use open_console.Relay.Auth.Grants.{can_write-authenticate}
use open_console.Relay.Forward.{Routes}
use open_console.Relay.Routing.{
  ChannelOpen, Frame, Reaction, Sender, from_guest, from_guest_channel, serve_as, type_close,
  type_data, type_ping,
}

-- The handler gave the host nothing and left the tables alone.
abbrev pub IsKeptFromHost : Routes → Reaction → Type 0
IsKeptFromHost r a = (a.to_host ≡ []) × (a.routes ≡ r)

module _ (decode_open : Bytes → Option ChannelOpen) (others : Routes → Routes) where
  channel-IsKept :
      (g : Sender) (f : Frame) (r : Routes)
      → g.can_write ≡ false
      → IsKeptFromHost r (from_guest_channel decode_open others g f r)
  unfolding from_guest_channel
  channel-IsKept g f r h = rw h (refl, refl)

  from_guest-IsKept :
      (g : Sender) (f : Frame) (r : Routes)
      → g.can_write ≡ false
      → IsKeptFromHost r (from_guest decode_open others g f r)
  unfolding from_guest
  from_guest-IsKept g f r h =
      if-cases {A = Reaction} (IsKeptFromHost r) (not (f.channel == 0)) _ _
        (λ stream. channel-IsKept g f r h)
        (λ terminal.
          if-cases {A = Reaction} (IsKeptFromHost r) (f.type == type_data) _ _
            (λ typed. rw h (refl, refl))
            (λ control.
              if-cases {A = Reaction} (IsKeptFromHost r) (f.type == type_ping) _ _
                (λ ping. (refl, refl))
                (λ other.
                  if-cases {A = Reaction} (IsKeptFromHost r) (f.type == type_close) _ _
                    (λ close. (refl, refl)) (λ ignored. (refl, refl)))))

  -- Whoever is granted access with neither the host's nor the guest's token of a session, whatever
  -- role the connection asks for, makes the relay send nothing to the host and open no stream, with any
  -- frame on any channel.
  pub viewer-IsKept :
      (cancelled_context : Bool) (now : ℕ) (id : Text) (role : Role) (token : Text) (m : Manager)
      (s : Session) (a : Access) (guest : ℕ) (f : Frame) (r : Routes)
      → (authenticate cancelled_context now id role token m).1 ≡ granted s a
      → token ≢ s.host_token
      → token ≢ s.guest_token
      → IsKeptFromHost r (from_guest decode_open others (serve_as guest (some a)) f r)
  viewer-IsKept cancelled_context now id role token m s a guest f r e h g =
      from_guest-IsKept (serve_as guest (some a)) f r
        (can_write-authenticate cancelled_context now id role token m s a e h g)
