-- ===== src/Providers.antt =====
-- backend/app/providers: the clients of the telephony platforms.
pub mod Ari
pub mod Asterisk
