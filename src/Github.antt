-- ===== src/Github.antt =====
-- The integration with GitHub: the client, the service and the HTTP interface.
pub mod Client
pub mod Config
pub mod Service
pub mod Api
