-- ===== src/Relay.antt =====
-- The relay (rapina/src/relay): topics that clients subscribe to over a WebSocket.
pub mod Channel
pub mod Hub
pub mod Tasks
pub mod Laws
pub mod Tests
