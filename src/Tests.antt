-- ===== src/Tests.antt =====
-- Tests and examples, a module for each component.
mod Base32
mod Protocol
mod Crypto
mod Locator
mod Tunnel
mod Relay
mod Ring
mod Forward
mod Bridge
mod Bridges
mod Page
mod Client
mod Routing
mod Wire
mod Server
