-- ===== src/Rest/Exchange.antt =====
-- What `perform_request` of src/rest.cpp exchanges with the HTTP library and with its caller.
use stoatpp.Prelude.{ℕ, Bool, List, ◌&&◌, leb, ltb}
use stoatpp.Prelude.Int.{ℤ, pos_part}
use stoatpp.Text.{Text}
use stoatpp.Json.{JsonLib}

-- The fields of `ClientConfig` that a request reads.
pub record RestConfig : Type 0 where
  pub bot_token : Bool
  pub extra_headers : List (Text × Text)
  pub http_retry_count : ℤ
  pub http_respect_ratelimits : Bool
  pub ratelimit_retry_delay_ms : ℤ

-- An answer: its status, its body and the headers that are read; a missing header is empty.
pub record Reply : Type 0 where
  pub at : ℕ
  pub status : ℤ
  pub body : Text
  pub bucket : Text
  pub limit : Text
  pub remaining : Text
  pub reset_after : Text

pub data HttpResult : Type 0 where
  -- the library's description of the error
  no_answer : Text → HttpResult
  answered : Reply → HttpResult

pub record Response (J : JsonLib) : Type 0 where
  pub status_code : ℤ
  pub body : J.Json

pub data Outcome (J : JsonLib) : Type 0 where
  returned : Response J → Outcome J
  -- `RateLimitError`, with the milliseconds to wait
  rate_limited : ℤ → Outcome J
  unsupported_method : Outcome J
  -- the list of results is used up
  waiting : Outcome J

pub data RestEffect : Type 0 where
  sent : List (Text × Text) → Text → RestEffect
  slept_ms : ℤ → RestEffect
  -- the error callback: status and message
  reported : ℤ → Text → RestEffect

pub record Request (J : JsonLib) : Type 0 where
  pub method : Text
  pub path : Text
  pub body : J.Json

-- `Response::success`
unfoldable pub success : ℤ → Bool
success status = leb 200 (pos_part status) && ltb (pos_part status) 300
