-- ===== src/Web.antt =====
-- The browser client, web/src.
pub mod Base32
pub mod Json
pub mod Protocol
pub mod Utf8
pub mod TextDecoder
pub mod Crypto
pub mod Tunnel
pub mod Percent
pub mod Locator
pub mod Page
pub mod Footer
