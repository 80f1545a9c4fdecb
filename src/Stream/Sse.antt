-- ===== src/Stream/Sse.antt =====
-- The server-sent events of services/chat.tsx. `JSON.parse` is the parameter `parse_json`, with
-- `none` where it throws; text comes decoded.
pub mod Lines
pub mod Connection
pub mod Client
