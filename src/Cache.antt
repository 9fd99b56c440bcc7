-- ===== src/Cache.antt =====
-- src/cluster/cache.cpp: the caches of a cluster, the event listeners that keep them, and the accessors.
pub mod State
pub mod Roles
pub mod Listeners
pub mod Reads
pub mod Invariant
pub mod Members
pub mod Carried
pub mod RoleMap
