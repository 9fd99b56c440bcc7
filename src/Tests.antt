-- ===== src/Tests.antt =====
-- Runs of the model and uses of its theorems on concrete data.
pub mod Sample
pub mod Guards
pub mod Caching
pub mod Commanding
pub mod Serving
pub mod Storing
pub mod Connecting
pub mod Dispatching
pub mod Moving
pub mod Moderating
pub mod Signalling
pub mod Joining
pub mod Paging
