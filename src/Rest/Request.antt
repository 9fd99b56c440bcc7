-- ===== src/Rest/Request.antt =====
-- `perform_request` of src/rest.cpp. The HTTP library is outside the repository: the results of the attempts
-- are given as a list, each with the time at which it arrives.
pub mod Retries
use stoatpp.Prelude.{
  ◌>>=◌, ℕ, suc, Bool, true, false, Option, none, some, List, [], ◌∷◌, ◌++◌, ltb, leb, ◌==◌, ◌&&◌,
  ◌||◌, not, is_nil, if◌then◌else◌,
}
use stoatpp.Prelude.Int.{ℤ, pos, pos_part}
use stoatpp.Text.{Text, lit, text_eq}
use stoatpp.Dict.{Dict}
use stoatpp.Json.{JsonLib, string_field, number_field}
use stoatpp.Rest.Exchange.{
  HttpResult, Outcome, Reply, Request, Response, RestConfig, RestEffect, answered, no_answer,
  rate_limited, reported, returned, sent, slept_ms, success, unsupported_method, waiting,
}
use stoatpp.Rest.Numerals.{to_string, stoi}
use stoatpp.Rest.Ratelimiter.{BucketState, update, check}

abbrev pub is_429 : ℤ → Bool
is_429 status = pos_part status == 429

abbrev pub headers : RestConfig → Text → List (Text × Text)
headers config token =
    ((if config.bot_token then lit "X-Bot-Token" else lit "X-Session-Token"), token)
    ∷ config.extra_headers

abbrev pub is_supported : Text → Bool
is_supported method =
    text_eq method (lit "GET")
    || text_eq method (lit "POST")
    || text_eq method (lit "PATCH")
    || text_eq method (lit "PUT")
    || text_eq method (lit "DELETE")

abbrev pub limit_values : Reply → Option (ℤ × ℤ × ℤ)
limit_values r = do
  limit ← stoi r.limit
  remaining ← stoi r.remaining
  reset ← stoi r.reset_after
  some (limit, remaining, reset)

-- The three limit headers, if all are there and are numbers.
abbrev pub limits_of : Reply → Option (ℤ × ℤ × ℤ)
limits_of r =
    if not (is_nil r.limit) && not (is_nil r.remaining) && not (is_nil r.reset_after)
    then limit_values r
    else none

-- The bucket that an answer names, or else the request's own.
abbrev pub bucket_of : Text → Reply → Text
bucket_of own r = if is_nil r.bucket then own else r.bucket

abbrev pub note_limits : Text → Reply → Dict BucketState → Dict BucketState
note_limits own r buckets = elim (limits_of r) [
  | none ↦ buckets
  | some (limit, remaining, reset) ↦ update r.at (bucket_of own r) limit remaining reset buckets
]

module _ (J : JsonLib) where
  abbrev pub body_text : J.Json → Text
  body_text body = if J.is_null body then [] else J.dump body

  -- The body of an answer; one that does not parse is kept as text.
  abbrev pub response_body : Text → J.Json
  response_body body = if is_nil body then J.null else elim (J.parse body) [
    | some j ↦ j
    | none ↦ J.with_field J.object (lit "raw_body") (J.of_text body)
  ]

  abbrev pub retry_after : RestConfig → J.Json → Text → ℤ
  retry_after config body reset =
      if J.is_object body
        && J.contains body (lit "retry_after")
        && J.is_number (J.field body (lit "retry_after"))
      then J.get_int (J.field body (lit "retry_after"))
      else if is_nil reset
      then config.ratelimit_retry_delay_ms
      else elim (stoi reset) [ some n ↦ n | none ↦ config.ratelimit_retry_delay_ms ]

  abbrev pub with_permission : J.Json → Text → Text
  with_permission body msg = elim (string_field J body (lit "permission")) [
    | none ↦ msg
    | some p ↦ msg ++ lit " (missing permission: " ++ p ++ lit ")"
  ]

  -- The message for the error callback.
  abbrev pub failure_message : ℤ → J.Json → Text
  failure_message status body =
      if J.is_object body
      then elim (string_field J body (lit "type")) [
        | some t ↦ with_permission body t
        | none ↦ elim (string_field J body (lit "error")) [ some e ↦ e | none ↦ J.dump body ]
      ]
      else lit "HTTP error " ++ to_string status

  -- `Response::error_message`
  unfoldable pub error_message : Response J → Text
  error_message r =
      if J.is_object r.body
      then elim (string_field J r.body (lit "type")) [
        | some t ↦ with_permission r.body t
        | none ↦ elim (string_field J r.body (lit "error")) [
          | some e ↦ e
          | none ↦ lit "HTTP error " ++ to_string r.status_code
        ]
      ]
      else lit "HTTP error " ++ to_string r.status_code

  abbrev pub connection_failed : Request J → Text → Text
  connection_failed q err =
      lit "Connection failed on " ++ q.method ++ lit " " ++ q.path ++ lit ": " ++ err

  -- The loop: one attempt for each result. `retries` counts the failed connections.
  unfoldable pub attempts :
      RestConfig
      → Bool
      → Text
      → Request J
      → ℕ
      → List HttpResult
      → Dict BucketState
      → Outcome J × List RestEffect × Dict BucketState
  attempts config has_callback token q retries [] buckets = (waiting, [], buckets)
  attempts config has_callback token q retries (no_answer err ∷ results) buckets =
      let send = sent (headers config token) (body_text q.body) in
      let msg = connection_failed q err in
      let rest = attempts config has_callback token q (suc retries) results buckets in
      if ltb retries (pos_part config.http_retry_count)
      then (rest.0, send ∷ slept_ms (pos 1000) ∷ rest.1, rest.2)
      else (
        returned (record {
          status_code = pos 0;
          body = J.with_field J.object (lit "error") (J.of_text msg);
        }),
        send ∷ (if has_callback then reported (pos 0) msg ∷ [] else []),
        buckets,
      )
  attempts config has_callback token q retries (answered r ∷ results) buckets =
      let send = sent (headers config token) (body_text q.body) in
      let body = response_body r.body in
      let noted = note_limits (q.method ++ lit ":" ++ q.path) r buckets in
      let pause = retry_after config body r.reset_after in
      let rest = attempts config has_callback token q retries results noted in
      if is_429 r.status
      then (if config.http_respect_ratelimits
          then (rest.0, send ∷ slept_ms pause ∷ rest.1, rest.2)
          else (
            rate_limited pause,
            send ∷ (if has_callback then reported r.status (lit "Rate limit hit") ∷ [] else []),
            noted,
          ))
      else (
        returned (record { status_code = r.status; body = body }),
        send
            ∷ (if not (success r.status) && has_callback
                then reported r.status (failure_message r.status body) ∷ []
                else []),
        noted,
      )

  -- `perform_request`, from the time at which it is called.
  unfoldable pub perform_request :
      RestConfig
      → Option (Text → Text → J.Json → J.Json)
      → Bool
      → Text
      → ℕ
      → Request J
      → List HttpResult
      → Dict BucketState
      → Outcome J × List RestEffect × Dict BucketState
  unfolding attempts check
  perform_request config hook has_callback token now q results buckets =
      let body : J.Json = elim hook [ some f ↦ f q.method q.path q.body | none ↦ q.body ] in
      let hooked = record q { body = body } in
      let wait = check now (q.method ++ lit ":" ++ q.path) buckets in
      if is_supported q.method
      then (let done = attempts config has_callback token hooked 0 results buckets in
          if config.http_respect_ratelimits && ltb 0 wait
          then (done.0, slept_ms (pos wait) ∷ done.1, done.2)
          else done)
      else (
        unsupported_method,
        (if config.http_respect_ratelimits && ltb 0 wait then slept_ms (pos wait) ∷ [] else []),
        buckets,
      )
