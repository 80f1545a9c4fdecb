-- ===== src/Chat/Helper.antt =====
-- services/chat-helper.tsx: what a model has generated is split into thinking and content.
pub mod Qwen
pub mod Gpt
