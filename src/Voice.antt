-- ===== src/Voice.antt =====
-- The voice signalling of src/voice_connection.cpp.
pub mod Protobuf
pub mod Requests
pub mod Fields
pub mod Session
pub mod Steps
pub mod Signals
pub mod IceServers
pub mod Connection
pub mod Playback
