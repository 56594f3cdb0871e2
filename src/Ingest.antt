-- ===== src/Ingest.antt =====
-- api/v1/ingest_webhook.py and api/v1/ingest_cloudflare.py: records of other systems become events.
pub mod Values
pub mod KeyValues
pub mod Translate
pub mod Webhook
pub mod Endpoint
pub mod Cloudflare
pub mod Logged
pub mod Newest
pub mod Published
pub mod Stored
pub mod Unique
pub mod Batches
pub mod Counts
mod Tests
mod CloudflareTests
