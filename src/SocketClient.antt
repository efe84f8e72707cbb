-- ===== src/SocketClient.antt =====
-- packages/websocket-client/src/client.ts: the WebSocket client that reconnects.
pub mod Backoff
pub mod State
pub mod Calls
pub mod Events
