-- ===== src/Chat/Review.antt =====
-- The server-side review of an answer: the pure parts of
-- rubezh-api/internal/chat/orchestrator_review.go and review_attachments.go.
pub mod Verdict
pub mod Attachments
pub mod Messages
