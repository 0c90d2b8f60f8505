-- ===== src/Workflow.antt =====
-- The workflows: app/workflows/langgraph.
pub mod State
pub mod Nodes
pub mod Services
pub mod Variant
pub mod Versions
pub mod Sequence
pub mod Run
pub mod Risk
pub mod Compliance
pub mod RedisStore
