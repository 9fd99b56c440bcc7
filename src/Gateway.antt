-- ===== src/Gateway.antt =====
-- src/gateway.cpp: the connection to the event server, and the events that it is sent.
pub mod Fields
pub mod Ready
pub mod Route
pub mod Session
pub mod Handle
pub mod Sequence
pub mod Bulk
pub mod Ends
pub mod Life
