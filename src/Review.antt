-- ===== src/Review.antt =====
-- internal/runtime/review_room*.go: the founder's agenda, in three sections.
pub mod Items
pub mod Contradiction
pub mod Room
pub mod Suggest
pub mod Sync
pub mod Evidence
