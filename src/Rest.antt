-- ===== src/Rest.antt =====
-- src/rest.cpp and src/utils/ratelimiter.cpp: one request with its retries, and the rate limits.
pub mod Numerals
pub mod Ratelimiter
pub mod Exchange
pub mod Request
pub mod Upload
pub mod Fetch
pub mod UrlEncode
pub mod Verbs
pub mod Endpoints
pub mod MoveChannel
