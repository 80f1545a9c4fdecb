-- ===== src/Chat.antt =====
-- The chat of the frontend: parsing of generations, the messages, and the user's actions.
pub mod Helper
pub mod Messages
pub mod Actions
pub mod Session
pub mod Format
