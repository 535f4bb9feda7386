-- ===== src/Ucrd.antt =====
-- cmd/ucrd: the identity provider of the users that are Kubernetes resources.
pub mod Authenticator
mod Tests
