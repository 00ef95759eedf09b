-- ===== src/Chat/Orchestrator.antt =====
-- The orchestrator: rubezh-api/internal/chat/orchestrator.go, orchestrator_rag.go and the loop of
-- orchestrator_review.go.
pub mod Steps
pub mod Mappings
pub mod Prepare
pub mod Retrieval
pub mod Rounds
pub mod Stream
pub mod Silence
pub mod Preparing
pub mod Order
pub mod Recorded
pub mod Gate
pub mod Deltas
