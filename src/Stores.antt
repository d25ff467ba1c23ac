-- ===== src/Stores.antt =====
-- internal/runtime/{work,proposal,approval,release,deploy,flow,preflight,policy,gateway,execute,
-- verify,branch,agent_job,state,memory}.go: the item stores. A store is its items in order; a method
-- that writes returns the new items, or the error that leaves the store as it was.
pub mod Loop
pub mod Work
pub mod Branches
pub mod Delivery
pub mod Control
pub mod Jobs
pub mod Company
