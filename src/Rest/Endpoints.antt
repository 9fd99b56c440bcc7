-- ===== src/Rest/Endpoints.antt =====
-- The endpoints of `rest_client` of src/rest.cpp: the request that each makes.
pub mod Users
pub mod Webhooks
pub mod Account
pub mod Messages
pub mod Paths
pub mod Servers
pub mod Channels
