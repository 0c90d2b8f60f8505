-- ===== src/Tests.antt =====
-- The theorems at concrete inputs.
pub mod World
pub mod Decimals
pub mod Governance
pub mod Models
pub mod Prompts
pub mod Domain
pub mod Scalability
pub mod Workflow
pub mod Compliance
pub mod Charges
pub mod Stores
pub mod Collectors
pub mod Databases
pub mod Security
pub mod Resilience
pub mod Locks
pub mod Api
pub mod App
pub mod Repository
pub mod Application
