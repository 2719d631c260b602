-- ===== src/HttpApi.antt =====
-- internal/transport/httpapi: the HTTP interface of the service.
pub mod Codec
pub mod ListQuery
pub mod Router
pub mod Rejections
pub mod Answers
pub mod Client
pub mod Selfcheck
