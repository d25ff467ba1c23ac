-- ===== src/Types.antt =====
-- The records of internal/runtime and their Validate methods, each in the order of its checks.
-- A slice or a map that the code compares with nil is an `Option`; a `*string` is one too.
pub mod Vocabulary
pub mod Work
pub mod Delivery
pub mod Control
pub mod Events
pub mod Jobs
pub mod Review
