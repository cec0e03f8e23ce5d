-- ===== src/Ingestion/Chunking.antt =====
-- Chunking (backend/src/sovereign_rag/ingestion/chunking.py): units, tails, packing and the two
-- splitters, and what is proved of them.
pub mod Units
pub mod Tail
pub mod Pack
pub mod Split
pub mod Bounds
pub mod Limits
pub mod Drafts
pub mod Ink
pub mod Coverage
pub mod Joined
pub mod Align
mod Tests
