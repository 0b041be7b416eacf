-- ===== src/Voice.antt =====
-- owen-voice, the service that carries the audio of agents: the wire protocol, the sessions and the server.
pub mod AudioSocket
pub mod Session
pub mod Server
