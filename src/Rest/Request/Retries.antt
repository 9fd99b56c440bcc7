-- ===== src/Rest/Request/Retries.antt =====
-- How often `perform_request` of src/rest.cpp sends a request.
use stoatpp.Prelude.{
  ℕ, suc, ◌+◌, ◌-◌, ◌≤◌, ◌<◌, ◌≡◌, refl, Bool, true, false, Option, none, some, List, [], ◌∷◌, ◌&&◌,
  not, tests, arith, ltb, Every, length, Bool-cases, inl, inr, if◌then◌else◌, ◌++◌,
}
use stoatpp.Prelude.Int.{ℤ, pos_part}
use stoatpp.Text.{Text, lit}
use stoatpp.Dict.{Dict}
use stoatpp.Json.{JsonLib}
use stoatpp.Rest.Ratelimiter.{BucketState, check}
use stoatpp.Rest.Exchange.{
  RestConfig, HttpResult, no_answer, answered, Outcome, waiting, RestEffect, sent, reported,
  success, Request,
}
use stoatpp.Rest.Request.{is_429, is_supported, note_limits, attempts, perform_request}

abbrev pub sends : List RestEffect → ℕ
sends [] = 0
sends (sent h b ∷ es) = suc (sends es)
sends (_ ∷ es) = sends es

abbrev pub is_done : {J : JsonLib} → Outcome J → Bool
is_done waiting = false
is_done _ = true

-- An answer that the configuration waits out.
abbrev pub waits_out : RestConfig → HttpResult → Bool
waits_out config (no_answer err) = false
waits_out config (answered r) = is_429 r.status && config.http_respect_ratelimits

abbrev pub rate_limits : RestConfig → List HttpResult → ℕ
rate_limits config [] = 0
rate_limits config (r ∷ results) =
    let rest = rate_limits config results in if waits_out config r then suc rest else rest

sends-reported :
    (b : Bool) (status : ℤ) (msg : Text) → sends (if b then reported status msg ∷ [] else []) ≡ 0
sends-reported true status msg = refl
sends-reported false status msg = refl

module _ (J : JsonLib) (config : RestConfig) (has_callback : Bool) (token : Text)
    (q : Request J) where
  abbrev tries : ℕ
  tries = pos_part config.http_retry_count

  attempts-sends :
      (retries : ℕ) (results : List HttpResult) (buckets : Dict BucketState)
      → sends (attempts J config has_callback token q retries results buckets).1
        ≤ rate_limits config results + (tries - retries) + 1
  unfolding attempts
  attempts-sends retries [] buckets = omega arith
  attempts-sends retries (no_answer err ∷ results) buckets = elim (Bool-cases (ltb retries tries)) [
    | inl again ↦
        rw (attempts, again) (omega (tests, again, attempts-sends (suc retries) results buckets))
    | inr last ↦ rw (attempts, last) (omega (arith, sends-reported has_callback _ _))
  ]
  attempts-sends retries (answered r ∷ results) buckets =
      let noted = note_limits (q.method ++ lit ":" ++ q.path) r buckets in
      elim (Bool-cases (is_429 r.status)) [
        | inr other ↦
            rw (attempts, other)
              (omega (arith, sends-reported (not (success r.status) && has_callback) _ _))
        | inl limited ↦ elim (Bool-cases config.http_respect_ratelimits) [
          | inl respects ↦
              rw (attempts, limited, respects) (omega (arith, attempts-sends retries results noted))
          | inr raises ↦
              rw (attempts, limited, raises) (omega (arith, sends-reported has_callback _ _))
        ]
      ]

  attempts-done :
      (retries : ℕ) (results : List HttpResult) (buckets : Dict BucketState)
      → rate_limits config results + (tries - retries) < length results
      → is_done (attempts J config has_callback token q retries results buckets).0 ≡ true
  unfolding attempts
  attempts-done retries [] buckets many = absurd (omega (arith, many))
  attempts-done retries (no_answer err ∷ results) buckets many =
      elim (Bool-cases (ltb retries tries)) [
        | inl again ↦
            rw (attempts, again)
              (attempts-done (suc retries) results buckets (omega (tests, again, many)))
        | inr last ↦ rw (attempts, last) refl
      ]
  attempts-done retries (answered r ∷ results) buckets many =
      let noted = note_limits (q.method ++ lit ":" ++ q.path) r buckets in
      elim (Bool-cases (is_429 r.status)) [
        | inr other ↦ rw (attempts, other) refl
        | inl limited ↦ elim (Bool-cases config.http_respect_ratelimits) [
          | inl respects ↦
              rw (attempts, limited, respects)
                (attempts-done retries results noted
                  (omega (arith, (rw (limited, respects) at many))))
          | inr raises ↦ rw (attempts, limited, raises) refl
        ]
      ]

  attempts-waiting :
      (retries : ℕ) (results : List HttpResult) (buckets : Dict BucketState)
      → Every (λ r. waits_out config r ≡ true) results
      → (attempts J config has_callback token q retries results buckets).0 ≡ waiting
  unfolding attempts
  attempts-waiting retries [] buckets each = refl
  attempts-waiting retries (no_answer err ∷ results) buckets each = cc (each.0)
  attempts-waiting retries (answered r ∷ results) buckets each =
      let noted = note_limits (q.method ++ lit ":" ++ q.path) r buckets in
      let limited : is_429 r.status ≡ true = ground (arith, each.0) in
      let respects : config.http_respect_ratelimits ≡ true = ground (arith, each.0) in
      rw (attempts, limited, respects) (attempts-waiting retries results noted each.1)

module _ (J : JsonLib) (config : RestConfig) (hook : Option (Text → Text → J.Json → J.Json))
    (has_callback : Bool) (token : Text) (now : ℕ) (q : Request J) (results : List HttpResult)
    (buckets : Dict BucketState) where
  abbrev hooked : Request J
  hooked = record q { body = elim hook [ some f ↦ f q.method q.path q.body | none ↦ q.body ] }

  abbrev sleeps_first : Bool
  sleeps_first =
      config.http_respect_ratelimits && ltb 0 (check now (q.method ++ lit ":" ++ q.path) buckets)

  -- A request is sent at most once for each 429 answer that is waited out, once for each retry that the
  -- configuration allows, and once more.
  pub perform_request-sends :
      sends (perform_request J config hook has_callback token now q results buckets).1
      ≤ rate_limits config results + pos_part config.http_retry_count + 1
  unfolding perform_request
  perform_request-sends =
      let bound = attempts-sends J config has_callback token hooked 0 results buckets in
      elim (Bool-cases sleeps_first) [
        | inl sleeps ↦ elim (Bool-cases (is_supported q.method)) [
          | inl known ↦ rw (perform_request, known, sleeps) (omega (arith, bound))
          | inr unknown ↦ rw (perform_request, unknown, sleeps) (omega arith)
        ]
        | inr goes ↦ elim (Bool-cases (is_supported q.method)) [
          | inl known ↦ rw (perform_request, known, goes) (omega (arith, bound))
          | inr unknown ↦ rw (perform_request, unknown, goes) (omega arith)
        ]
      ]

  -- If the connection gives more results than the 429 answers that are waited out and the allowed retries
  -- together, the request ends: with a response or an exception.
  pub perform_request-done :
      rate_limits config results + pos_part config.http_retry_count < length results
      → is_done (perform_request J config hook has_callback token now q results buckets).0 ≡ true
  unfolding perform_request
  perform_request-done many =
      let done =
        attempts-done J config has_callback token hooked 0 results buckets (omega (arith, many)) in
      elim (Bool-cases sleeps_first) [
        | inl sleeps ↦ elim (Bool-cases (is_supported q.method)) [
          | inl known ↦ rw (perform_request, known, sleeps) done
          | inr unknown ↦ rw (perform_request, unknown) refl
        ]
        | inr goes ↦ elim (Bool-cases (is_supported q.method)) [
          | inl known ↦ rw (perform_request, known, goes) done
          | inr unknown ↦ rw (perform_request, unknown) refl
        ]
      ]

  -- As long as the server answers with 429 and the configuration respects rate limits, a request does not
  -- end, however few retries are allowed.
  pub perform_request-waiting :
      is_supported q.method ≡ true
      → Every (λ r. waits_out config r ≡ true) results
      → (perform_request J config hook has_callback token now q results buckets).0 ≡ waiting
  unfolding perform_request
  perform_request-waiting known each =
      let waits = attempts-waiting J config has_callback token hooked 0 results buckets each in
      elim (Bool-cases sleeps_first) [
        | inl sleeps ↦ rw (perform_request, known, sleeps) waits
        | inr goes ↦ rw (perform_request, known, goes) waits
      ]
