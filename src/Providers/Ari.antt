-- ===== src/Providers/Ari.antt =====
-- backend/app/providers/asterisk_client.py: `AsteriskAriClient`, the client that the flows, the
-- supervisors and the softphones drive Asterisk with.
pub mod Client
pub mod Events
pub mod Channels
pub mod Waits
pub mod Dial
pub mod Ring
pub mod Outbound
pub mod Voicemail
pub mod Resources
pub mod Keeping
pub mod Owing
pub mod Dialling
pub mod Rings
pub mod Outbounds
pub mod Teardown
pub mod Guard
pub mod Music
pub mod Ports
pub mod Answered
mod Examples
