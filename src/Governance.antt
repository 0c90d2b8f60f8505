-- ===== src/Governance.antt =====
-- The governance layer: app/governance. The repositories are protocols with no implementation in the
-- program, so each is a parameter: a record of actions on a state `W` of which nothing is known, and
-- a record of the laws that a working repository obeys.
pub mod Audit
pub mod Approval
pub mod Models
pub mod Prompts
