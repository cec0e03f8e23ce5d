-- ===== src/Compliance.antt =====
-- The compliance audit graph (backend/src/sovereign_rag/agents/compliance.py).
pub mod State
pub mod Reading
pub mod Nodes
pub mod Grounded
pub mod Judged
pub mod Mapped
mod Tests
