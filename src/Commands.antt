-- ===== src/Commands.antt =====
-- src/cluster/commands.cpp: command registration, matching, dispatch, suggestions and the help menu.
pub mod Distance
pub mod Parse
pub mod State
pub mod Match
pub mod Cooldown
pub mod Suggest
pub mod Dispatch
pub mod Edits
