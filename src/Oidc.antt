-- ===== src/Oidc.antt =====
-- cmd/oidc: the OIDC server.
pub mod Client
pub mod Authorize
pub mod SigningKey
pub mod Index
pub mod UserInfo
pub mod PasswordGrant
pub mod Storage
pub mod HttpProvider
pub mod SessionStore
pub mod Upstream
pub mod ClientController
pub mod UpstreamController
pub mod LoginPage
pub mod Login
pub mod UpstreamLogin
pub mod UpstreamGo
pub mod UpstreamWelcome
mod Tests
