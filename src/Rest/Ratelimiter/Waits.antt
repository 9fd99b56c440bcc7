-- ===== src/Rest/Ratelimiter/Waits.antt =====
-- How long the rate limiter makes a request wait.
use stoatpp.Prelude.{ℕ, ◌+◌, ◌-◌, ◌≤◌, ◌≡◌, refl, arith, ltb, if◌then◌else◌, Bool-cases, inl, inr}
use stoatpp.Prelude.Int.{ℤ, pos, pos_part}
use stoatpp.Text.{Text, text_eq}
use stoatpp.Dict.{Dict, lookup-insert}
use stoatpp.Rest.Ratelimiter.{BucketState, update, check, later_by}

-- After an answer at time `at` says how many requests remain and when the bucket resets, a request to that
-- bucket at a later time waits exactly until the reset if no request remains, and not at all if one
-- remains or the reset has passed; every other bucket waits as before.
pub check-update :
    (buckets : Dict BucketState) (at now : ℕ) (bucket other : Text) (limit remaining : ℤ)
    (after : ℕ)
    → at ≤ now
    → check now other (update at bucket limit remaining (pos after) buckets) ≡ (
        if text_eq bucket other
        then (if ltb 0 (pos_part remaining) then 0 else at + after - now)
        else check now other buckets)
unfolding check update
check-update buckets at now bucket other limit remaining after le =
    let written =
      lookup-insert bucket other
        (record { limit = limit; remaining = remaining; reset_at = later_by at (pos after) })
        buckets in
    elim (Bool-cases (text_eq bucket other)) [
      | inl same ↦ rw (check, written, same) (ground arith)
      | inr differs ↦ rw (check, written, differs) refl
    ]
