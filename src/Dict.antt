-- ===== src/Dict.antt =====
-- `std::unordered_map<std::string, V>`: an association list, each key at most once. The order of
-- iteration of the source's map is unspecified; here it is the order of first insertion.
mod Laws
mod Entries
mod Defs
unfoldable pub use Defs.*
pub use Laws.*
pub use Entries.*
