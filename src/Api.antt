-- ===== src/Api.antt =====
-- The HTTP layer: app/main.py, app/api/middleware.py, app/api/dependencies.py and app/api/routers.
pub mod App
pub mod Dependencies
pub mod Events
pub mod Middleware
pub mod Routers
