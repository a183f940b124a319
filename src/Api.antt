-- ===== src/Api.antt =====
-- internal/api: the event hub, the ingestion of logs and the middlewares.
pub mod Hub
pub mod Ingest
pub mod Middleware
pub mod Queries
