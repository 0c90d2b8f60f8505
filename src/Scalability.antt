-- ===== src/Scalability.antt =====
-- The scalability layer: app/scalability. Clock readings are native numbers, in the ticks of the
-- monotonic clock; rounding in the subtraction of two float readings is not modelled.
pub mod CircuitBreaker
pub mod RateLimiter
pub mod Autoscaling
pub mod Bulkhead
pub mod Partitioning
pub mod Health
pub mod Lock
