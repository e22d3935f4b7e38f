-- ===== src/Examples/Backoff.antt =====
-- Instances of the laws of retried operations, on a counter that each failed attempt raises.
use zygote.Common.{
  ℕ, suc, ◌*◌, ◌≤◌, Option, none, some, codes, ℤ, pos, pos_part, ltb, if◌then◌else◌, ◌≡◌, refl,
  arith,
}
use zygote.Errors.{Err, errorf}
use zygote.Backoff.{BackoffConfig, delay, second}
use zygote.Backoff.Delays.{delay-bounds}
use zygote.Backoff.Outcome.{failed, state_before, retry-success}
use zygote.Backoff.Sound.{Succeeds, retry-Succeeds}

abbrev config : BackoffConfig
config = record {
  max_attempts = pos 3;
  initial_delay = pos (1 * second);
  max_delay = pos (60 * second);
}

abbrev failure : Err
failure = errorf (codes "not yet")

abbrev waits : ℤ → ℕ → ℕ × Option Err
waits d w = (w, none)

abbrev third_time : ℕ → ℕ × Option Err
third_time w = if ltb w 2 then (suc w, some failure) else (w, none)

abbrev never : ℕ → ℕ × Option Err
never w = (suc w, some failure)

reached : state_before config waits third_time 0 2 0 ≡ some 2
unfolding state_before delay failed
reached = refl

reached_never : state_before config waits never 0 2 0 ≡ some 2
unfolding state_before delay failed
reached_never = refl

retry-Succeeds_example : Succeeds config waits third_time (pos_part config.max_attempts) 0 0 2
retry-Succeeds_example =
    retry-Succeeds config waits third_time 0 2
      (retry-success config waits third_time 3 refl 2 0 2 (omega arith) reached 2 refl)

delay-bounds_example :
    (d : ℕ) × (next : ℕ) × (delay config 5 ≡ pos d)
    × (delay config 6 ≡ pos next)
    × (d ≤ 60 * second)
    × (d ≤ next)
    × (next ≤ 2 * d)
delay-bounds_example =
    delay-bounds config 5 (1 * second) (60 * second) refl refl (omega arith) (omega arith)
