-- ===== src/Biz.antt =====
-- internal/biz: the business services over the repositories.
pub mod Call
pub mod Audit
pub mod Resource
pub mod Permission
pub mod Endpoint
pub mod Swagger
pub mod Policy
