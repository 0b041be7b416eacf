-- ===== src/Telephony.antt =====
-- backend/app/telephony: who drives a live call, and how a human listens to it and seizes it.
pub mod Ownership
pub mod Monitor
