-- ===== src/Moderation.antt =====
-- src/cluster/moderation.cpp and the message operations of src/cluster/messaging.cpp: each runs on a thread
-- of its own, asks the REST client and calls back. What the client answers is a parameter.
pub mod Threads
pub mod Status
pub mod Actions
pub mod MemberRoles
pub mod Messages
pub mod Invites
pub mod Answers
