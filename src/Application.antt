-- ===== src/Application.antt =====
-- The application layer: app/application/event_service.py and app/application/event_repository.py, and
-- the repository over Redis, app/infrastructure/cache/event_repository_redis.py.
pub mod EventService
pub mod RedisRepository
