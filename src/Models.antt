-- ===== src/Models.antt =====
-- include/stoatpp/models: the records that the client parses from the API's JSON.
pub mod Role
pub mod Member
pub mod Server
pub mod User
pub mod Channel
pub mod Emoji
pub mod RoundTrip
pub mod Payload
pub mod Service
pub mod Invite
