-- ===== src/Api.antt =====
-- src/api: the request handlers.
pub mod Range
pub mod Auth
pub mod Multipart
