-- ===== src/Api.antt =====
-- fraudlatch/api: repositories and routes.
pub mod RiskRepository
pub mod Repository
pub mod Routes
pub mod Ingest
pub mod Atomicity
pub mod Idempotency
pub mod Queries
pub mod Service
