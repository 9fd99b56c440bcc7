-- ===== src/Rest/Ratelimiter.antt =====
-- src/utils/ratelimiter.cpp. The steady clock is read in milliseconds.
pub mod Waits
use stoatpp.Prelude.{ℕ, suc, ◌+◌, ◌-◌, Bool, Option, none, some, ltb, if◌then◌else◌}
use stoatpp.Prelude.Int.{ℤ, pos, negsuc, pos_part, neg_part, sub_ℕ, ltb_ℤ}
use stoatpp.Text.{Text}
use stoatpp.Dict.{Dict, lookup, insert}

pub record BucketState : Type 0 where
  pub limit : ℤ
  pub remaining : ℤ
  pub reset_at : ℤ

-- A time point and a duration, which may be negative.
abbrev pub later_by : ℕ → ℤ → ℤ
later_by now (pos n) = pos (now + n)
later_by now (negsuc n) = sub_ℕ now (suc n)

-- `ratelimiter::update`
unfoldable pub update : ℕ → Text → ℤ → ℤ → ℤ → Dict BucketState → Dict BucketState
update now bucket limit remaining reset_after buckets =
    insert bucket
      (record { limit = limit; remaining = remaining; reset_at = later_by now reset_after }) buckets

abbrev pub wait_of : ℕ → BucketState → ℕ
wait_of now state =
    if ltb 0 (pos_part state.remaining)
    then 0
    else if ltb_ℤ (pos now) state.reset_at
    then pos_part state.reset_at - now
    else 0

-- `ratelimiter::check`: the milliseconds to wait.
unfoldable pub check : ℕ → Text → Dict BucketState → ℕ
check now bucket buckets = elim (lookup bucket buckets) [
  | none ↦ 0
  | some state ↦ wait_of now state
]

-- `ratelimiter::is_limited`
unfoldable pub is_limited : ℕ → Text → Dict BucketState → Bool
unfolding check
is_limited now bucket buckets = ltb 0 (check now bucket buckets)
