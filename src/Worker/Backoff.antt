-- ===== src/Worker/Backoff.antt =====
-- internal/worker/submission_backoff.go: when a failed submission or media upload is tried again.
-- Durations are nanoseconds in an `int64`, attempts are `int32`.
pub mod Bounds
use ai_go.Common.{ℕ, ◌*◌, ◌^◌, Bool, ◌||◌, if◌then◌else◌}
use ai_go.Common.Int.{ℤ, pos, pos_part, ◌-ℤ◌, ltb_ℤ, leb_ℤ, wrap32, wrap64}
use ai_go.Common.Clock.{Time, second, minute, add_time}

abbrev pub submission_retry_base : ℕ
submission_retry_base = 10 * second

abbrev pub submission_retry_cap : ℕ
submission_retry_cap = 5 * minute

abbrev pub retry_after_floor : ℕ
retry_after_floor = second

abbrev pub max_retry_backoff_exponent : ℕ
max_retry_backoff_exponent = 16

abbrev pub material_upload_retry_base : ℕ
material_upload_retry_base = 15 * second

abbrev pub material_upload_retry_cap : ℕ
material_upload_retry_cap = 5 * minute

-- What `errors.As` finds in the cause: the adapter's `ClientError` with its `RetryAfter`, or none.
pub data Cause : Type 0 where
  client_error : ℤ → Cause
  other_error : Cause

-- `attempt - 1`, held to 0..16.
unfoldable pub retry_exponent : ℤ → ℕ
retry_exponent attempt =
    let exponent = wrap32 (attempt -ℤ pos 1) in
    if ltb_ℤ exponent (pos 0)
    then 0
    else if ltb_ℤ (pos max_retry_backoff_exponent) exponent
    then max_retry_backoff_exponent
    else pos_part exponent

-- `base << uint(exponent)`.
abbrev pub shift_left : ℕ → ℕ → ℤ
shift_left base exponent = wrap64 (pos (base * 2 ^ exponent))

unfoldable pub exponential_backoff : ℤ → ℤ
exponential_backoff attempt =
    let delay = shift_left submission_retry_base (retry_exponent attempt) in
    if leb_ℤ delay (pos 0) || ltb_ℤ (pos submission_retry_cap) delay
    then pos submission_retry_cap
    else delay

unfoldable pub retry_after_delay : Cause → ℤ
retry_after_delay other_error = pos 0
retry_after_delay (client_error retry_after) =
    if leb_ℤ retry_after (pos 0)
    then pos 0
    else (let floored =
          if ltb_ℤ retry_after (pos retry_after_floor)
          then pos retry_after_floor
          else retry_after in
        if ltb_ℤ (pos submission_retry_cap) floored then pos submission_retry_cap else floored)

unfoldable pub submission_backoff : ℤ → Cause → ℤ
submission_backoff attempt cause =
    let delay = retry_after_delay cause in
    if ltb_ℤ (pos 0) delay then delay else exponential_backoff attempt

unfoldable pub next_submission_attempt : Time → ℤ → Cause → Time
next_submission_attempt now attempt cause = add_time now (submission_backoff attempt cause)

unfoldable pub material_upload_backoff : ℤ → ℤ
material_upload_backoff attempt =
    let delay = shift_left material_upload_retry_base (retry_exponent attempt) in
    if leb_ℤ delay (pos 0) || ltb_ℤ (pos material_upload_retry_cap) delay
    then pos material_upload_retry_cap
    else delay

unfoldable pub next_material_upload_attempt : Time → ℤ → Time
next_material_upload_attempt now attempt = add_time now (material_upload_backoff attempt)
