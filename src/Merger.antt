-- ===== src/Merger.antt =====
-- cmd/merger: the identity of a login, put together from several providers.
pub mod Provider
pub mod Authenticator
mod Tests
