-- ===== src/Relay/Routing/Owned.antt =====
-- A stream of internal/session leads from its guest to the host and back to that guest.
use open_console.Prelude.{
  ◌<◌, ◌==◌, Bytes, List, Option, [], ◌^◌, ap, arith, false, length, refl, some, true, ℕ, ◌∙◌, ◌∷◌,
  ◌≡◌, ◌≢◌,
}
use open_console.Relay.Forward.{
  Event, Routes, lookup_guest_channel, lookup_host_channel, no_routes, open_forward, opened, run,
}
use open_console.Relay.Forward.Runs.{numberings_agree}
use open_console.Relay.Routing.{
  ChannelOpen, Frame, Sender, deliver, from_guest, from_guest_channel, from_host_channel,
  is_closing, is_stream, on_channel, type_data, type_open,
}

-- Where a frame toward the host comes from: the guest's terminal input, a stream that the guest has
-- in the tables, or one that it opens now. Its type and payload are those of the guest's frame.
pub data Origin (g : Sender) (f : Frame) (r : Routes) (out : Frame) : Type 0 where
  input : f.channel ≡ 0 → f.type ≡ type_data → out.channel ≡ 0 → Origin g f r out
  stream : lookup_guest_channel g.id f.channel r ≡ some out.channel → Origin g f r out
  opening : (open_forward g.id f.channel r).1 ≡ opened out.channel → Origin g f r out

pub record IsOwn (g : Sender) (f : Frame) (r : Routes) (out : Frame) : Type 0 where
  pub writer : g.can_write ≡ true
  pub origin : Origin g f r out
  pub type : out.type ≡ f.type
  pub payload : out.payload ≡ f.payload

module _ (decode_open : Bytes → Option ChannelOpen) (others : Routes → Routes) where
  sent_on :
      (g : Sender) (f : Frame) (r : Routes) (h : ℕ)
      → g.can_write ≡ true
      → f.channel ≢ 0
      → f.type ≡ type_data
      → (others r).host ≡ true
      → lookup_guest_channel g.id f.channel r ≡ some h
      → (from_guest decode_open others g f r).to_host ≡ on_channel f h ∷ []
  unfolding from_guest from_guest_channel
  sent_on g f r h on numbered typed attached e =
      let z : f.channel == 0 ≡ false = ground arith in
      let not_open : f.type == type_open ≡ false = ground arith in
      let is_data : is_stream f.type ≡ true = ground arith in
      let kept_open : is_closing f.type ≡ false = ground arith in
      rw (z, on, not_open, is_data, e, kept_open, attached) refl

  -- Once the tables, after any fewer than 2^32 events, have a number for a channel, not 0, of a
  -- guest who may write, the guest's data on that channel goes to the host on the number, if a host
  -- is attached by then, and any frame of the host on the number, if the stream's queue takes it, is
  -- queued for that guest on that channel.
  pub from_host_channel-from_guest :
      (es : List Event) (g : Sender) (f reply : Frame) (h : ℕ)
      → length es < 2 ^ 32
      → g.can_write ≡ true
      → f.channel ≢ 0
      → f.type ≡ type_data
      → (others (run no_routes es)).host ≡ true
      → lookup_guest_channel g.id f.channel (run no_routes es) ≡ some h
      → reply.channel ≡ h
      → ((from_guest decode_open others g f (run no_routes es)).to_host ≡ on_channel f h ∷ [])
        × ((from_host_channel true reply (run no_routes es)).queued
            ≡ some (g.id, on_channel reply f.channel))
  unfolding from_host_channel
  from_host_channel-from_guest es g f reply h room on numbered typed attached e same =
      let r = run no_routes es in
      let back = (numberings_agree es g.id f.channel h room).0 e in
      (
        sent_on g f r h on numbered typed attached e,
        ap (λ c. (deliver true reply (lookup_host_channel c r) r).queued) same
            ∙ ap (λ o. (deliver true reply o r).queued) back,
      )
