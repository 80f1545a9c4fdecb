-- ===== src/Stream.antt =====
-- The two streaming readers of the services: server-sent events and newline-delimited JSON.
pub mod Frames
pub mod Walk
pub mod Sse
pub mod Http
pub mod Response
