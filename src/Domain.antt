-- ===== src/Domain.antt =====
-- The domain layer: app/domain/models/event.py, app/domain/schemas/event.py and
-- app/domain/validators/event_validator.py.
pub mod Event
pub mod Lifecycle
pub mod Requests
pub mod Validators
