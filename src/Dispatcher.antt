-- ===== src/Dispatcher.antt =====
-- `event_dispatcher` of include/stoatpp/event_handler.h and src/event_handler.cpp, and the registrations
-- that the constructor of a cluster makes (src/cluster.cpp, src/cluster/cache.cpp, src/cluster/commands.cpp).
pub mod Kinds
pub mod Calls
pub mod Order
pub mod Cached
