-- ===== src/Handlers.antt =====
-- internal/handlers: the handlers of the exporter's HTTP server and the middleware around them.
pub mod Writer
pub mod Middleware
pub mod Pages
pub mod Metrics
