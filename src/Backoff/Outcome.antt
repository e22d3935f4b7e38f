-- ===== src/Backoff/Outcome.antt =====
-- What a retried operation returns, and how often it runs.
use native.Mathlib.Nat.{add-zero}
use zygote.Common.{
  if◌then◌else◌, ◌∙◌, ap, ℕ, zero, suc, ◌+◌, ◌<◌, true, false, Option, none, some, ℤ, pos, pos_part,
  ltb_ℤ, ◌≡◌, arith, inl, inr, Option-cases,
}
use zygote.Errors.{Err}
use zygote.Backoff.{after_wait, after_call, BackoffConfig, delay, exhausted, retry_from, retry}

module _ {W : Type 0} (config : BackoffConfig) (wait : ℤ → W → W × Option Err)
    (fn : W → W × Option Err) where
  -- The state before the next attempt, after an attempt that failed and a wait that was not stopped.
  unfoldable pub waited : W × Option Err → Option W
  waited (w, none) = some w
  waited (w, some stop) = none

  unfoldable pub failed : ℕ → W × Option Err → Option W
  unfolding waited
  failed attempt (w, none) = none
  failed attempt (w, some e) = waited (wait (delay config attempt) w)

  -- The state before attempt `attempt + k`, if all attempts from `attempt` to there have failed and
  -- no wait after them was stopped.
  unfoldable pub state_before : ℕ → ℕ → W → Option W
  state_before attempt zero w = some w
  state_before attempt (suc k) w = elim (failed attempt (fn w)) [
    | none ↦ none
    | some u ↦ state_before (attempt + 1) k u
  ]

  more :
      (left attempt : ℕ)
      → config.max_attempts ≡ pos (attempt + suc (suc left))
      → ltb_ℤ (pos (attempt + 1)) config.max_attempts ≡ true
  more left attempt m = rw m (ground arith)

  after_wait-waited :
      (next : W → W × Option Err) (q : W × Option Err) (u : W)
      → waited q ≡ some u
      → after_wait config wait fn next q ≡ next u
  unfolding after_wait waited
  after_wait-waited next (w, none) u h = ap next (ground arith)
  after_wait-waited next (w, some stop) u h = ground arith

  after_call-failed :
      (next : W → W × Option Err) (attempt : ℕ) (p : W × Option Err) (u : W)
      → ltb_ℤ (pos (attempt + 1)) config.max_attempts ≡ true
      → failed attempt p ≡ some u
      → after_call config wait fn next attempt p ≡ next u
  unfolding after_call failed
  after_call-failed next attempt (w, none) u m h = ground arith
  after_call-failed next attempt (w, some e) u m h =
      rw m (after_wait-waited next (wait (delay config attempt) w) u h)

  -- One round whose attempt fails and whose wait is not stopped.
  wait_step :
      (left attempt : ℕ) (w u : W)
      → config.max_attempts ≡ pos (attempt + suc (suc left))
      → failed attempt (fn w) ≡ some u
      → retry_from config wait fn (suc (suc left)) attempt w
        ≡ retry_from config wait fn (suc left) (attempt + 1) u
  unfolding retry_from
  wait_step left attempt w u m h =
      after_call-failed (retry_from config wait fn (suc left) (attempt + 1)) attempt (fn w) u
        (more left attempt m) h

  -- The loop goes on from a round that is reached.
  Reaches : ℕ → ℕ → ℕ → W → W → Type 0
  Reaches k rounds attempt w u =
      (left : ℕ) × (rounds ≡ k + suc left)
      × (retry_from config wait fn rounds attempt w
          ≡ retry_from config wait fn (suc left) (attempt + k) u)

  state_before-Reaches :
      (k rounds attempt : ℕ) (w u : W)
      → k < rounds
      → config.max_attempts ≡ pos (attempt + rounds)
      → state_before attempt k w ≡ some u
      → Reaches k rounds attempt w u
  unfolding state_before Reaches
  state_before-Reaches zero zero attempt w u h m e = elim h [ ]
  state_before-Reaches zero (suc left) attempt w u h m e =
      (left, omega arith, ground (arith, add-zero attempt))
  state_before-Reaches (suc k) zero attempt w u h m e = elim h [ ]
  state_before-Reaches (suc k) (suc zero) attempt w u h m e = absurd (omega arith)
  state_before-Reaches (suc k) (suc (suc left)) attempt w u h m e =
      elim (Option-cases (failed attempt (fn w))) [
        | inl n ↦ ground arith
        | inr (x, f) ↦
            let tail : state_before (attempt + 1) k x ≡ some u = ground arith in
            let m' : config.max_attempts ≡ pos (attempt + 1 + suc left) = ground arith in
            let (rest, count, go) =
              state_before-Reaches k (suc left) (attempt + 1) x u (omega arith) m' tail in
            let counted : attempt + 1 + k ≡ attempt + suc k = omega arith in
            (
              rest,
              omega arith,
              wait_step left attempt w x m f
                  ∙ go
                  ∙ ap (λ a. retry_from config wait fn (suc rest) a u) counted,
            )
      ]

  pub ok_round :
      (left attempt : ℕ) (u v : W)
      → fn u ≡ (v, none)
      → retry_from config wait fn (suc left) attempt u ≡ (v, none)
  unfolding retry_from after_call
  ok_round left attempt u v h =
      ap (after_call config wait fn (retry_from config wait fn left (attempt + 1)) attempt) h

  pub failed_round :
      (left attempt : ℕ) (u v : W) (e : Err)
      → fn u ≡ (v, some e)
      → retry_from config wait fn (suc left) attempt u ≡ (
          if ltb_ℤ (pos (attempt + 1)) config.max_attempts
          then after_wait config wait fn
              (retry_from config wait fn left (attempt + 1))
              (wait (delay config attempt) v)
          else (v, some (exhausted config e)))
  unfolding retry_from after_call
  failed_round left attempt u v e h =
      ap (after_call config wait fn (retry_from config wait fn left (attempt + 1)) attempt) h

  pub stopped_wait :
      (next : W → W × Option Err) (q : W × Option Err) (x : W) (stop : Err)
      → q ≡ (x, some stop)
      → after_wait config wait fn next q ≡ (x, some stop)
  unfolding after_wait
  stopped_wait next q x stop h = ap (after_wait config wait fn next) h

  module _ (n : ℕ) (most : config.max_attempts ≡ pos n) (k : ℕ) (w u : W) (early : k < n)
      (reached : state_before 0 k w ≡ some u) where
    retry-Reaches :
        (left : ℕ) × (n ≡ k + suc left)
        × (retry config wait fn w ≡ retry_from config wait fn (suc left) k u)
    unfolding retry Reaches
    retry-Reaches =
        let (left, count, go) = state_before-Reaches k n 0 w u early (ground arith) reached in
        let counted : 0 + k ≡ k = omega arith in
        (
          left,
          count,
          ap (λ z. retry_from config wait fn (pos_part z) 0 w) most
              ∙ go
              ∙ ap (λ a. retry_from config wait fn (suc left) a u) counted,
        )

    -- The first attempt that succeeds, after fewer failures than attempts are allowed and waits
    -- that were not stopped, ends the loop, with the state that it leaves and no error.
    pub retry-success : (v : W) → fn u ≡ (v, none) → retry config wait fn w ≡ (v, none)
    retry-success v h = let (left, count, go) = retry-Reaches in go ∙ ok_round left k u v h

    -- If all attempts that are allowed fail and no wait between them is stopped, the error of the
    -- last one is returned, wrapped, and no wait follows it.
    pub retry-exhausted :
        (v : W) (e : Err)
        → n ≡ suc k
        → fn u ≡ (v, some e)
        → retry config wait fn w ≡ (v, some (exhausted config e))
    retry-exhausted v e last h =
        let (left, count, go) = retry-Reaches in
        let stop : ltb_ℤ (pos (k + 1)) config.max_attempts ≡ false = rw most (ground arith) in
        go ∙ failed_round left k u v e h ∙ rw stop

    -- If the context ends in the wait after an attempt that fails and is not the last one, the
    -- loop ends with the error of the context.
    pub retry-stopped :
        (v x : W) (e stop : Err)
        → suc k < n
        → fn u ≡ (v, some e)
        → wait (delay config k) v ≡ (x, some stop)
        → retry config wait fn w ≡ (x, some stop)
    retry-stopped v x e stop more h i =
        let (left, count, go) = retry-Reaches in
        let again : ltb_ℤ (pos (k + 1)) config.max_attempts ≡ true = rw most (ground arith) in
        go ∙ failed_round left k u v e h ∙ rw again (stopped_wait _ _ x stop i)
