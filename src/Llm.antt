-- ===== src/Llm.antt =====
-- The adapters of the models: rubezh-api/internal/llm.
pub mod Ssh
pub mod Markers
pub mod Bridge
pub mod Router
