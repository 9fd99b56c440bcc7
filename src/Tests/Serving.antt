-- ===== src/Tests/Serving.antt =====
-- Uses of the theorems on requests, watchers and timers.
use stoatpp.Prelude.{
  ◌+◌, ◌-◌, ◌≤◌, ◌<◌, ◌≡◌, refl, true, false, none, List, [], ◌∷◌, arith, ltb, if◌then◌else◌,
}
use stoatpp.Prelude.Int.{pos, pos_part}
use stoatpp.Text.{lit, text_eq}
use stoatpp.Dict.{Dict}
use stoatpp.Rest.Ratelimiter.{update, check}
use stoatpp.Rest.Ratelimiter.Waits.{check-update}
use stoatpp.Rest.Exchange.{RestConfig, HttpResult, no_answer, answered, waiting, Request}
use stoatpp.Rest.Request.{is_supported, perform_request}
use stoatpp.Rest.Request.Retries.{
  sends, is_done, rate_limits, perform_request-sends, perform_request-done, perform_request-waiting,
}
use stoatpp.Watchers.{Action, await, message, expire, watch_run, on_expire}
use stoatpp.Watchers.Once.{
  waiting_of, ungiven, answers, no_watchers, watch_run-answers, on_expire-answers,
}
use stoatpp.Rest.Upload.{UploadResult, upload_failed, uploaded, upload_file}
use stoatpp.Rest.Upload.Bounds.{upload_file-done}
use stoatpp.Rest.UrlEncode.{url_encode}
use stoatpp.Rest.UrlEncode.Inverse.{percent_decode, percent_decode-url_encode}
use stoatpp.Timers.{stop_timer}
use stoatpp.Timers.Firing.{
  TimerAction, start, collect, call, timer_run, no_timers, count, stop_timer-silent,
}
use stoatpp.Tests.Sample.{null, sample_json, sample_message}

check-update_example : check 1200 (lit "b") (update 1000 (lit "b") (pos 5) (pos 0) (pos 500) []) ≡ (
    if text_eq (lit "b") (lit "b")
    then (if ltb 0 (pos_part (pos 0)) then 0 else 1000 + 500 - 1200)
    else check 1200 (lit "b") [])
check-update_example =
    check-update [] 1000 1200 (lit "b") (lit "b") (pos 5) (pos 0) 500 (omega arith)

abbrev two_retries : RestConfig
two_retries = record {
  bot_token = true;
  extra_headers = [];
  http_retry_count = pos 2;
  http_respect_ratelimits = true;
  ratelimit_retry_delay_ms = pos 1000;
}

abbrev too_many : HttpResult
too_many = answered (record {
  at = 10;
  status = pos 429;
  body = [];
  bucket = [];
  limit = [];
  remaining = [];
  reset_after = [];
})

abbrev me : Request sample_json
me = record { method = lit "GET"; path = lit "/users/@me"; body = null }

abbrev unlucky : List HttpResult
unlucky = no_answer [] ∷ too_many ∷ no_answer [] ∷ no_answer [] ∷ too_many ∷ no_answer [] ∷ []

four_sent :
    sends (perform_request sample_json two_retries none false (lit "t") 0 me unlucky []).1 ≡ 4
unfolding perform_request text_eq stoatpp.Dict.lookup
four_sent = refl

perform_request-sends_example :
    sends (perform_request sample_json two_retries none false (lit "t") 0 me unlucky []).1
    ≤ rate_limits two_retries unlucky + pos_part two_retries.http_retry_count + 1
perform_request-sends_example =
    perform_request-sends sample_json two_retries none false (lit "t") 0 me unlucky []

perform_request-done_example :
    is_done (perform_request sample_json two_retries none false (lit "t") 0 me unlucky []).0 ≡ true
perform_request-done_example =
    perform_request-done sample_json two_retries none false (lit "t") 0 me unlucky [] (omega arith)

known_method : is_supported me.method ≡ true
unfolding text_eq
known_method = refl

perform_request-waiting_example :
    (perform_request sample_json two_retries none false
      (lit "t")
      0
      me
      (too_many ∷ too_many ∷ [])
      []).0
    ≡ waiting
perform_request-waiting_example =
    perform_request-waiting sample_json two_retries none false (lit "t") 0 me
      (too_many ∷ too_many ∷ []) [] known_method (refl, (refl, tt))

abbrev watched : List (Action sample_json)
watched =
    await (lit "c1") [] true
    ∷ await (lit "c1") (lit "alice") true
    ∷ message sample_message
    ∷ expire 0
    ∷ []

watch_run-answers_example :
    waiting_of 0 (watch_run sample_json no_watchers watched).0.watchers
      + ungiven 0 (watch_run sample_json no_watchers watched).0
      + answers sample_json 0 (watch_run sample_json no_watchers watched).1
    ≡ 1
watch_run-answers_example = watch_run-answers sample_json 0 watched

given : 1 < (watch_run sample_json no_watchers watched).0.watcher_counter
unfolding watch_run stoatpp.Watchers.watch_step on_expire stoatpp.Watchers.take_first
    stoatpp.Watchers.on_message stoatpp.Watchers.await_message text_eq
given = omega arith

on_expire-answers_example :
    answers sample_json 1 (watch_run sample_json no_watchers watched).1
      + answers sample_json 1
          (on_expire sample_json (watch_run sample_json no_watchers watched).0 1).1
    ≡ 1
on_expire-answers_example = on_expire-answers sample_json 1 watched given

-- The timer 1 is stopped between its collection and its call, and fires once more.
abbrev started : List TimerAction
started = start 0 5 ∷ start 0 7 ∷ collect 6000 ∷ []

abbrev stopped : List TimerAction
stopped = start 6000 1 ∷ call ∷ collect 9000 ∷ call ∷ call ∷ []

stop_found : (stop_timer (timer_run no_timers started).0 1).1 ≡ true
unfolding stoatpp.Timers.Firing.timer_step stoatpp.Timers.collect_round stoatpp.Timers.start_timer
    stop_timer stoatpp.Timers.collect_due
stop_found = refl

stop_timer-silent_example :
    (count 1 (timer_run (stop_timer (timer_run no_timers started).0 1).0 stopped).1
        + count 1 (timer_run (stop_timer (timer_run no_timers started).0 1).0 stopped).0.to_run
      ≡ count 1 (timer_run no_timers started).0.to_run)
    × (count 1 (timer_run no_timers started).0.to_run ≤ 1)
stop_timer-silent_example = stop_timer-silent started stopped 1 stop_found

abbrev unlucky_upload : List UploadResult
unlucky_upload =
    upload_failed []
    ∷ uploaded (pos 429) [] []
    ∷ uploaded (pos 429) [] []
    ∷ uploaded (pos 200) [] []
    ∷ []

upload_file-done_example :
    (is_done (upload_file sample_json two_retries (lit "t") (lit "data") 0 unlucky_upload).0 ≡ true)
    × (sends (upload_file sample_json two_retries (lit "t") (lit "data") 0 unlucky_upload).1
        ≤ pos_part two_retries.http_retry_count + 1)
upload_file-done_example =
    upload_file-done sample_json two_retries (lit "t") (lit "data") unlucky_upload (omega arith)

escapes : url_encode (0xF0 ∷ lit " a") ≡ lit "%F0%20a"
unfolding url_encode
escapes = refl

percent_decode-url_encode_example : percent_decode (url_encode (0xF0 ∷ lit " a")) ≡ 0xF0 ∷ lit " a"
percent_decode-url_encode_example =
    percent_decode-url_encode (0xF0 ∷ lit " a") (omega arith, (omega arith, (omega arith, tt)))
