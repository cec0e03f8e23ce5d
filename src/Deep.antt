-- ===== src/Deep.antt =====
-- The deep-search agent (backend/src/sovereign_rag/agents/): its state, its nodes, its routing, and
-- the run of the graph.
pub mod State
pub mod Prompts
pub mod Route
pub mod Nodes
pub mod Graph
pub mod Evidence
pub mod Contract
pub mod Steps
pub mod Budget
pub mod Run
pub mod Decisions
mod Tests
