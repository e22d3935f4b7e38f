-- ===== src/Backoff.antt =====
-- lib/cluster/utils/backoff.go: an operation is retried with delays that double.
-- `W` is the state that the operation acts on. `wait d` is the `select` between the end of the
-- context and the end of a delay `d`: it returns `ctx.Err()` where the context ends first.
pub mod Delays
pub mod Outcome
pub mod Sound
pub mod Invariant
pub mod Final
use zygote.Common.{
  ℕ, zero, suc, ◌+◌, ◌-◌, ◌^◌, Bool, true, false, Option, none, some, ◌++◌, ltb, if◌then◌else◌,
  Bytes, codes, ℤ, pos, negsuc, pos_part, ltb_ℤ, wrap64, ◌*ℤ◌, ◌≡◌, refl,
}
use zygote.Strconv.{itoa}
use zygote.Errors.{Err, errorf, wrap}

-- Delays are `time.Duration`s, in nanoseconds.
pub record BackoffConfig : Type 0 where
  pub max_attempts : ℤ
  pub initial_delay : ℤ
  pub max_delay : ℤ

abbrev pub second : ℕ
second = 1_000_000_000

-- `time.Duration(math.Pow(2, float64(attempt)))`. A power above the range becomes the least `int64`,
-- as on amd64.
unfoldable pub power_of_two : ℕ → ℤ
power_of_two attempt = if ltb attempt 63 then pos (2 ^ attempt) else negsuc (2 ^ 63 - 1)

unfoldable pub delay : BackoffConfig → ℕ → ℤ
delay config attempt =
    let d = wrap64 (power_of_two attempt *ℤ config.initial_delay) in
    if ltb_ℤ config.max_delay d then config.max_delay else d

unfoldable pub failed_after : BackoffConfig → Bytes
failed_after config =
    codes "operation failed after " ++ itoa config.max_attempts ++ codes " attempts"

-- The error of the last attempt, wrapped.
unfoldable pub exhausted : BackoffConfig → Err → Err
unfolding failed_after
exhausted config e = wrap (failed_after config ++ codes ": ") e

module _ {W : Type 0} (config : BackoffConfig) (wait : ℤ → W → W × Option Err)
    (fn : W → W × Option Err) where
  -- What follows the `select`: the next round, or the error of the context.
  unfoldable pub after_wait : (W → W × Option Err) → W × Option Err → W × Option Err
  after_wait next (w, none) = next w
  after_wait next (w, some stop) = (w, some stop)

  -- What follows an attempt. There is no wait after the last one.
  unfoldable pub after_call : (W → W × Option Err) → ℕ → W × Option Err → W × Option Err
  unfolding after_wait
  after_call next attempt (w, none) = (w, none)
  after_call next attempt (w, some e) =
      if ltb_ℤ (pos (attempt + 1)) config.max_attempts
      then after_wait next (wait (delay config attempt) w)
      else (w, some (exhausted config e))

  -- The rounds that are left, and the number of the attempt.
  unfoldable pub retry_from : ℕ → ℕ → W → W × Option Err
  retry_from zero attempt w = (w, some (errorf (failed_after config)))
  retry_from (suc left) attempt w = after_call (retry_from left (attempt + 1)) attempt (fn w)

  unfoldable pub retry : W → W × Option Err
  retry = retry_from (pos_part config.max_attempts) 0
