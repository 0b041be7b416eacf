-- ===== src/Services.antt =====
-- backend/app/services: text messages, the job queue, the ingestion of calls and delivery receipts.
pub mod Sms
pub mod Queue
pub mod Ingestion
pub mod Dlr
pub mod Inbox
mod Examples
