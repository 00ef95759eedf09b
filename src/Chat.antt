-- ===== src/Chat.antt =====
-- The orchestrator of /api/chat (rubezh-api/internal/chat): sanitize, policy, retrieval, model, leak
-- check, audit.
pub mod Types
pub mod Mapping
pub mod Decision
pub mod Records
pub mod Chunks
pub mod Incident
pub mod Errors
pub mod Rag
pub mod Review
pub mod Retriever
pub mod World
pub mod Orchestrator
