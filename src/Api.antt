-- ===== src/Api.antt =====
-- The HTTP handlers: rubezh-api/internal/api.
pub mod Http
pub mod Ids
pub mod Reveal
pub mod Audit
pub mod Chat
pub mod RateLimit
pub mod Incidents
pub mod Documents
pub mod Search
