-- ===== src/Lib.antt =====
-- OpenConsole shares a terminal: a host dials out to a relay, and guests join with a ticket from a
-- browser, a terminal or ssh. This library models the parts of the program whose correctness does
-- not rest on the operating system, and proves what they promise each other.
--
-- The browser client, web/src, is the tree Web:
--   * Web.Base32: encodeBase32 and decodeBase32 of crypto.ts, with the accumulator as a 32-bit
--     pattern; Letters holds the alphabet and the string methods, Tables, Digits, RoundTrip and
--     Output what is proved of them.
--   * Web.Json, Web.Protocol: the frames of protocol.ts and their encodings. A control message is
--     the value that JSON.parse returned (none if it threw) or that JSON.stringify is given.
--   * Web.Crypto: the keys of a Session, seal and open of crypto.ts. WebCrypto is the record
--     `WebCrypto`: operations and the laws of AES-GCM and HKDF that the code relies on. A promise is
--     its result, and a rejection an error value.
--   * Web.Utf8, Web.Percent: TextEncoder, encodeURIComponent and decodeURIComponent, which JavaScript
--     provides.
--   * Web.Locator: parseSessionURL, parseTicket and sessionURL of locator.ts, which read and write
--     the credential of a session in a URL or a ticket.
--   * Web.Tunnel: the class Tunnel of tunnel.ts. Its state is the record `Tunnel` of
--     Web.Tunnel.State: the fields of the class, the two promise chains as queues, the ready state
--     of the socket, and a log of what reached the page and the socket. `step` is one callback of the
--     browser or of the user, or one link of a chain; a run is a list of such events, in any order,
--     so every interleaving that a browser may choose is one of them. Frames
--     has what a callback reads of a frame; Quiet, Moves, Order, Sealed,
--     Attach, Endings and Drained are what is proved; Address is tunnelURL.
--   * Web.TextDecoder: the TextDecoder that JavaScript provides, as a stream; Chunks is about where
--     its input is cut.
--   * Web.Page: showSession of main.ts. The record `Page` has the locals of that function, what its
--     elements show (Page.View), the calls made on the terminal, and every tunnel that was opened,
--     the newest first. `react` is one event of a socket or of the user, with the calls of the
--     handlers that follow from it. Page.Fit is refit. Keeps and Invariant are general; Faithful
--     and Traces, Written and Terminal, Overlay, Fonts and Reconnect are about the keys, the text, the
--     overlay, the font and the second tunnel.
--   * Web.Page.Entry, Web.Footer: which view a location gets, the form and the ssh help of the
--     landing page, footer.ts and docs.ts; Web.Page.Arrival leads from the location to the session.
-- A tunnel gets its keys from Web.Crypto, its frames from Web.Protocol, and the page builds its
-- options from what Web.Locator read.
--
-- Both Go programs share internal/protocol and internal/e2e. Wire has the frames of wire.go and
-- protocol.go, and Wire.Agreement compares them with those of the browser. E2e has the keys and
-- Interop carries terminal data between a host of the Go side and the browsers of its guests; the
-- ciphers are the standard ones, so both take them from the record `WebCrypto`.
--
-- Of the relay's HTTP side, internal/server, Server.ClientIp has clientip.go, with Go's addresses as
-- the parameter `Net`.
--
-- Of the command line client, internal/client, Client.Ticket has the writing of a ticket; Pasted and
-- Issued take it through the landing page, from the identifiers that the relay made.
--
-- The relay's sessions, internal/session, are the tree Relay:
--   * Relay.Ring: frameRing of ring.go, what a guest who joins late is shown; Latest says which
--     frames that are.
--   * Relay.Id: NewID, NewToken and ValidID of id.go, on the random bytes that they draw.
--   * Relay.Manager: the store of manager.go and session.go. The record `Manager` has the map as an
--     association list. An `Event` is one stretch under the mutex, with the time that it reads, and a
--     run is a list of them, so that every interleaving of goroutines is one. Cases holds the ways
--     through Create; Ceiling, Kept, Created and Down are about the cap, the lasting of a session,
--     what Create and Get answer, and Close.
--   * Relay.Auth: Authenticate and the access levels of auth.go, on what Get of the store answers.
--   * Relay.Forward: the two numberings of forwarded streams of forward.go, that of each guest and
--     that toward the host. Tables, Routed, Opening, Runs and Numbers show that they agree.
--   * Relay.Bridge: the terminal channel of bridge.go. Its host's loop takes the mutex twice for a
--     frame, and what other goroutines do between is a step of its own; a guest's queue and what it
--     was sent are lists of frames. Views, Watching, Replay and Following are about what a guest
--     sees of the host's output.
--   * Relay.Bridges: the registry of bridges.go, one bridge for a session; Registered says how long.
--   * Relay.Stream: the queue of one forwarded stream, its stop and its last word, and the writer that
--     drains it; Flushing says what is delivered.
--   * Relay.Routing: what the relay does with a frame of a guest (fromGuest, fromGuestChannel,
--     openGuestChannel) or of the host on a stream (fromHostChannel), where other goroutines may
--     change the tables between two looks at them. ReadOnly and Owned say what gets through.
-- The host and the guests present the credentials that Relay.Manager made, which reach the browser
-- in the locator that Web.Locator reads.
--
-- Bounds. Texts are lists of code points and bytes are natural numbers; where a byte must be below
-- 256 the theorem says so. The inner loop of encodeBase32 has fuel 2: it runs while 5 bits are left,
-- and holds at most 12. Everything else recurs on its input. Times and
-- durations of the relay are numbers of nanoseconds, and a limit that Go reads as "none" when it is
-- not positive is 0.
--
-- JavaScript's numbers of the font are the parameter `Floats`, a total order with the arithmetic that
-- refit uses; no quotient there is 0 / 0, since a proposed grid has positive sides.
--
-- Not modelled: xterm.js, its fit addon (what it proposes for a font is a parameter) and the
-- document, whose elements are fields; the text of messages about failures (a `Reason` names each);
-- that WebCrypto may be missing from a page; JSON as text; web/vite.config.ts, which is
-- configuration; and the rest of the Go side (internal and cmd): the reading of control messages and
-- tickets there, the rest of the server, and the rest of the command line client.
--
-- Tests holds runs at concrete inputs and an instance of each theorem that has hypotheses.
pub mod Prelude
pub mod Web
pub mod Relay
pub mod Client
pub mod Wire
pub mod E2e
pub mod Server
pub mod Tests
