-- ===== src/Tests.antt =====
-- The theorems at concrete inputs.
mod Engine
mod Pseudonyms
mod Caches
mod Documents
mod Search
mod Paging
mod Previews
mod Retrieval
mod Gateway
mod Access
mod Incidents
mod Services
mod Notes
