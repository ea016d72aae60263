-- ===== src/Relay.antt =====
-- internal/session: the relay's sessions and what it keeps of each.
pub mod Ring
pub mod Id
pub mod Manager
pub mod Auth
pub mod Forward
pub mod Bridge
pub mod Bridges
pub mod Routing
pub mod Stream
