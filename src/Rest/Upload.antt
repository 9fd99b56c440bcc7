-- ===== src/Rest/Upload.antt =====
-- `rest_client::upload_file` of src/rest.cpp: a file is posted to the file server.
pub mod Bounds
use stoatpp.Prelude.{
  ℕ, suc, ◌+◌, ◌*◌, Bool, Option, none, some, List, [], ◌∷◌, ◌++◌, ltb, ◌&&◌, is_nil, if◌then◌else◌,
}
use stoatpp.Prelude.Int.{ℤ, pos, negsuc, pos_part}
use stoatpp.Text.{Text, lit}
use stoatpp.Json.{JsonLib}
use stoatpp.Rest.Numerals.{stoi}
use stoatpp.Rest.Exchange.{
  RestConfig, Response, Outcome, returned, waiting, RestEffect, sent, slept_ms,
}
use stoatpp.Rest.Request.{headers, response_body, is_429}

pub data UploadResult : Type 0 where
  -- the library's description of the error
  upload_failed : Text → UploadResult
  -- status, body, the header `Retry-After`
  uploaded : ℤ → Text → Text → UploadResult

abbrev pub in_milliseconds : ℤ → ℤ
in_milliseconds (pos n) = pos (n * 1000)
in_milliseconds (negsuc n) = negsuc (n * 1000 + 999)

module _ (J : JsonLib) where
  abbrev pub upload_pause : RestConfig → J.Json → Text → ℤ
  upload_pause config body header =
      if J.is_object body
        && J.contains body (lit "retry_after")
        && J.is_number (J.field body (lit "retry_after"))
      then J.get_int (J.field body (lit "retry_after"))
      else if is_nil header
      then config.ratelimit_retry_delay_ms
      else elim (stoi header) [
        | some n ↦ in_milliseconds n
        | none ↦ config.ratelimit_retry_delay_ms
      ]

  -- The loop, one attempt for each result; `upload_file` starts it with `retries = 0`.
  unfoldable pub upload_file :
      RestConfig → Text → Text → ℕ → List UploadResult → Outcome J × List RestEffect
  upload_file config token content retries [] = (waiting, [])
  upload_file config token content retries (upload_failed err ∷ results) =
      let send = sent (headers config token) content in
      let msg = lit "File upload to Autumn failed: " ++ err in
      let rest = upload_file config token content (suc retries) results in
      if ltb retries (pos_part config.http_retry_count)
      then (rest.0, send ∷ slept_ms (pos 1000) ∷ rest.1)
      else (
        returned (record {
          status_code = pos 0;
          body = J.with_field J.object (lit "error") (J.of_text msg);
        }),
        send ∷ [],
      )
  upload_file config token content retries (uploaded status text header ∷ results) =
      let send = sent (headers config token) content in
      let body = response_body J text in
      let pause = upload_pause config body header in
      let rest = upload_file config token content (suc retries) results in
      if is_429 status && ltb retries (pos_part config.http_retry_count)
      then (rest.0, send ∷ slept_ms pause ∷ rest.1)
      else (returned (record { status_code = status; body = body }), send ∷ [])
