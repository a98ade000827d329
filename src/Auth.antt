-- ===== src/Auth.antt =====
-- internal/auth: the login of browsers at an identity provider, and the bearer tokens of API
-- clients.
pub mod Session
pub mod Service
pub mod Flow
pub mod Bearer
pub mod Identity
pub mod Routing
pub mod Startup
mod Examples
mod Tests
