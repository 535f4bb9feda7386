-- ===== src/Ldap.antt =====
-- cmd/ldap: the identity provider of an LDAP directory.
pub mod Config
pub mod Directory
pub mod Authenticator
mod Tests
