-- ===== src/Ingestion/Service.antt =====
-- IngestionService (backend/src/sovereign_rag/ingestion/service.py): registering an upload, the
-- stages of a background task, and what holds in every order of their steps.
pub mod Prepare
pub mod State
pub mod Uploads
pub mod Process
pub mod Batches
pub mod Consistent
pub mod Steps
pub mod Kept
pub mod Stages
pub mod Writes
pub mod Reached
pub mod Settled
pub mod Told
pub mod Answers
pub mod Seed
pub mod Sample
mod Tests
