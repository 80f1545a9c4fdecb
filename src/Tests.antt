-- ===== src/Tests.antt =====
-- The theorems at concrete inputs.
mod Chat
mod Gpt
mod Session
mod Stream
mod Http
mod Cluster
mod Ui
mod Overlap
mod Router
mod Dialog
mod Conversation
mod App
