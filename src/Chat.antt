-- ===== src/Chat.antt =====
-- The chat (backend/src/sovereign_rag/chat/): prompts, the service that retrieves, streams and
-- persists, and what is proved of a streamed reply.
pub mod Prompts
pub mod Session
pub mod Database
pub mod Body
pub mod Service
pub mod Transcript
pub mod Triple
pub mod Order
pub mod Parts
pub mod Replies
pub mod Handlers
pub mod Records
pub mod Quiet
pub mod Audit
pub mod Access
pub mod Verbatim
mod Tests
