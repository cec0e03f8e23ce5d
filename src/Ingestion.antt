-- ===== src/Ingestion.antt =====
-- The ingestion pipeline (backend/src/sovereign_rag/ingestion/): extraction and chunking.
pub mod Extract
pub mod Chunking
pub mod Service
