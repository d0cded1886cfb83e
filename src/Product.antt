-- ===== src/Product.antt =====
-- The authenticated product host: product_service.py.
pub mod Errors
pub mod Quota
pub mod Requests
pub mod Schedules
pub mod Auth
pub mod RateLimit
pub mod Metrics
pub mod Concurrency
pub mod Service
pub mod Scheduler
pub mod Data
pub mod Retention
