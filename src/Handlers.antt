-- ===== src/Handlers.antt =====
-- internal/handlers.
pub mod Identity
mod Tests
