-- ===== src/Api.antt =====
-- src/ma/api: the endpoints.
pub mod Socket
pub mod History
pub mod Stream
