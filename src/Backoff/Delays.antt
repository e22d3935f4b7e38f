-- ===== src/Backoff/Delays.antt =====
-- The delays between attempts.
use zygote.Common.{
  suc, *ℤ_pos, wrap64_pos, ℕ, ◌*◌, ◌^◌, ◌≤◌, ◌<◌, pos, if◌then◌else◌, ltb, ◌≡◌, arith,
}
use native.Mathlib.Nat.{pow-suc, mul_comm, mul_assoc}
use zygote.Backoff.{BackoffConfig, delay, power_of_two}

-- The doubled delay, cut at the maximum.
abbrev pub capped : ℕ → ℕ → ℕ
capped m d = if ltb m d then m else d

power_of_two_lem : (attempt : ℕ) → attempt < 63 → power_of_two attempt ≡ pos (2 ^ attempt)
unfolding power_of_two
power_of_two_lem attempt h = ground arith

doubled : (attempt init : ℕ) → 2 ^ suc attempt * init ≡ 2 * (2 ^ attempt * init)
doubled attempt init = rw (pow-suc, mul_comm _ 2, mul_assoc)

delay_lem :
    (config : BackoffConfig) (attempt init most : ℕ)
    → config.initial_delay ≡ pos init
    → config.max_delay ≡ pos most
    → attempt < 63
    → 2 ^ attempt * init < 2 ^ 63
    → delay config attempt ≡ pos (capped most (2 ^ attempt * init))
unfolding delay
delay_lem config attempt init most hi hm small fits =
    rw
      (
        delay,
        hi,
        hm,
        power_of_two_lem attempt small,
        *ℤ_pos,
        wrap64_pos (2 ^ attempt * init) (omega arith),
      )
      (ground arith)

-- For delays that are not negative, as long as the doubled delay of the next attempt is an
-- `int64`: an attempt waits at most for the maximum, and the next one waits at least as long and
-- at most twice as long.
pub delay-bounds :
    (config : BackoffConfig) (attempt init most : ℕ)
    → config.initial_delay ≡ pos init
    → config.max_delay ≡ pos most
    → attempt < 62
    → 2 ^ suc attempt * init < 2 ^ 63
    → (d : ℕ) × (next : ℕ) × (delay config attempt ≡ pos d)
      × (delay config (suc attempt) ≡ pos next)
      × (d ≤ most)
      × (d ≤ next)
      × (next ≤ 2 * d)
delay-bounds config attempt init most hi hm small fits =
    let double = doubled attempt init in
    (
      capped most (2 ^ attempt * init),
      capped most (2 ^ suc attempt * init),
      delay_lem config attempt init most hi hm (omega arith) (omega arith),
      delay_lem config (suc attempt) init most hi hm (omega arith) fits,
      ground arith,
      ground (arith, double),
      ground (arith, double),
    )
