-- ===== src/Audits.antt =====
-- The audit jobs (backend/src/sovereign_rag/audits.py): launch, checkpoint, resume.
pub mod State
pub mod Service
pub mod Sure
pub mod Stored
pub mod Asking
pub mod Checkpoint
pub mod Graph
pub mod Launch
pub mod Runs
mod Tests
