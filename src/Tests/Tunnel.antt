-- ===== src/Tests/Tunnel.antt =====
-- Runs of the tunnel.
use open_console.Prelude.{
  ◌++◌, All, Bool, Bytes, List, Option, [], codes, false, none, refl, some, true, ◌∷◌, ◌≡◌,
}
use open_console.Web.Json.{Json, bool, end, field, obj, str, get, nat, truthy}
use open_console.Web.Protocol.{Frame, FrameType, encode_control, encode_data, open_frame, decoded}
use open_console.Web.Protocol
use open_console.Web.Crypto.{seal, can_write, open_from_host}
use open_console.Web.Tunnel.State.{
  Tunnel, Options, access, connected, connecting, fresh, sent_control, shown, status, bad_decrypt,
  closed, fail, missing_key, open_now,
}
use open_console.Web.Tunnel.{
  run, connect, deliver, on_message, on_open, open_message, step, write, has_crypto, on_close,
}
use open_console.Web.Tunnel.Frames.{
  Event, binary, delivered, message, socket_opened, text, typed, close_reason,
}
use open_console.Web.Tunnel.Order.{shown_by, view, arrivals, plains, shown_in_order}
use open_console.Web.Tunnel.Drained.{deliveries, drained-shows}
use open_console.Web.Tunnel.Sealed.{data_sent, IsSealed, sends_only-IsSealed, viewer_sends_nothing}
use open_console.Web.Tunnel.Attach.{close_replaces_ending, says_encrypted}
use open_console.Web.Tunnel.Endings.{sent_by, ended_sends_nothing}
use open_console.Tests.Crypto.{toy, watching, ticket_key, nonce, repeat}

-- A viewer's link, and one with no key.
abbrev keyed : Options toy
keyed = record {
  session_id = codes "abc";
  token = codes "tok";
  cols = nat 80;
  rows = nat 24;
  crypto = some watching;
}

abbrev clear : Options toy
clear = record keyed { crypto = none }

abbrev ack : Bool → Json
ack encrypted =
    obj
      (field (codes "role") (str (codes "guest")) (field (codes "encrypted") (bool encrypted) end))

abbrev control : FrameType → Option Json → Event
control type payload = message (text (some (encode_control type payload 0)))

-- "hi", sealed by the host.
abbrev sealed_hi : Bytes
sealed_hi = encode_data (seal toy ticket_key 0 nonce (codes "hi")) 0

abbrev forged : Bytes
forged = encode_data (repeat 1 40) 0

abbrev session : List Event
session =
    socket_opened
    ∷ control open_frame (some (ack true))
    ∷ message (binary sealed_hi)
    ∷ message (binary forged)
    ∷ delivered
    ∷ delivered
    ∷ typed (codes "x")
    ∷ []

abbrev start : Tunnel
start = connect toy keyed true fresh

-- The opened frame is shown; the forged one waits.
session_view :
    (run toy keyed start session).log
    ≡ status connecting none
      ∷ sent_control (encode_control open_frame (some (open_message toy keyed)) 0)
      ∷ access true
      ∷ status connected none
      ∷ shown (codes "hi")
      ∷ []
unfolding run step connect on_open on_message deliver write open_from_host can_write seal
    encode_data encode_control
session_view = refl

shown_in_order_example :
    view toy keyed (run toy keyed start session)
    ≡ view toy keyed start ++ plains toy keyed (arrivals toy keyed start session)
shown_in_order_example = shown_in_order toy keyed session start

nothing-IsSealed_yet : All (IsSealed toy watching) start.log
unfolding connect
nothing-IsSealed_yet = (tt, tt)

sends_only-IsSealed_example : All (IsSealed toy watching) (run toy keyed start session).log
sends_only-IsSealed_example =
    sends_only-IsSealed toy watching keyed refl session start nothing-IsSealed_yet

watching_reads_only : can_write toy watching ≡ false
unfolding can_write
watching_reads_only = refl

viewer_sends_nothing_example : data_sent (run toy keyed start session).log ≡ []
viewer_sends_nothing_example =
    viewer_sends_nothing toy watching watching_reads_only keyed session refl

-- With no key and an encrypted session, the tunnel ends at the acknowledgement.
abbrev no_key : List Event
no_key = socket_opened ∷ control open_frame (some (ack true)) ∷ delivered ∷ []

abbrev clear_start : Tunnel
clear_start = connect toy clear true fresh

no_key_ends :
    (run toy clear clear_start no_key).ending
    ≡ some (record { reason = missing_key; graceful = false })
unfolding run step connect on_open on_message deliver encode_control
no_key_ends = refl

ended_sends_nothing_example :
    sent_by
      (run toy clear (run toy clear clear_start no_key) (typed (codes "x") ∷ delivered ∷ [])).log
    ≡ sent_by (run toy clear clear_start no_key).log
ended_sends_nothing_example =
    ended_sends_nothing toy clear true no_key (typed (codes "x") ∷ delivered ∷ [])
      (record { reason = missing_key; graceful = false }) no_key_ends

they_agree : says_encrypted (some (ack true)) ≡ has_crypto toy keyed
unfolding truthy get
they_agree = refl

-- A forged frame ends the session, and the CLOSE frame behind it makes that look normal.
abbrev close_frame : Frame
close_frame = record { type = Protocol.close; channel = nat 0; payload = decoded none }

abbrev tampered : Tunnel
tampered =
    fail bad_decrypt (record fresh { ws = true; ready = open_now; inbound = close_frame ∷ [] })

tampered_queue : tampered.inbound ≡ close_frame ∷ []
unfolding fail
tampered_queue = refl

close_replaces_ending_example :
    (on_close toy keyed (deliver toy keyed tampered)).log
    ≡ (deliver toy keyed tampered).log ++ status closed (some (close_reason none)) ∷ []
close_replaces_ending_example =
    close_replaces_ending toy keyed close_frame [] tampered tampered_queue refl

drained-shows_example :
    ((run toy keyed
        (run toy keyed start session)
        (deliveries (run toy keyed start session).inbound)).inbound
      ≡ [])
    × (shown_by
          (run toy keyed
            (run toy keyed start session)
            (deliveries (run toy keyed start session).inbound)).log
        ≡ view toy keyed start ++ plains toy keyed (arrivals toy keyed start session))
drained-shows_example = drained-shows toy keyed session start
