-- ===== src/Backoff/Invariant.antt =====
-- What each attempt and each wait keeps, a retried operation keeps.
use zygote.Common.{
  Bool-cases, inl, inr, ℕ, zero, suc, ◌+◌, Option, none, some, ℤ, pos, pos_part, ltb_ℤ,
}
use zygote.Errors.{Err}
use zygote.Backoff.{BackoffConfig, delay, retry_from, retry, after_wait, after_call}

module _ {W : Type 0} (config : BackoffConfig) (wait : ℤ → W → W × Option Err)
    (fn : W → W × Option Err) (P : W → Type 0) (attempts : (w : W) → P w → P (fn w).0)
    (waits : (d : ℤ) (w : W) → P w → P (wait d w).0) where
  after_wait-keeps :
      (next : W → W × Option Err)
      → ((w : W) → P w → P (next w).0)
      → (q : W × Option Err) → P q.0
      → P (after_wait config wait fn next q).0
  unfolding after_wait
  after_wait-keeps next keep (w, none) h = keep w h
  after_wait-keeps next keep (w, some stop) h = h

  after_call-keeps :
      (next : W → W × Option Err)
      → ((w : W) → P w → P (next w).0)
      → (attempt : ℕ) (p : W × Option Err) → P p.0
      → P (after_call config wait fn next attempt p).0
  unfolding after_call
  after_call-keeps next keep attempt (w, none) h = h
  after_call-keeps next keep attempt (w, some e) h =
      elim (Bool-cases (ltb_ℤ (pos (attempt + 1)) config.max_attempts)) [
        | inl again ↦
            rw again (after_wait-keeps next keep (wait (delay config attempt) w) (waits _ w h))
        | inr last ↦ rw last h
      ]

  retry_from-keeps :
      (rounds attempt : ℕ) (w : W) → P w → P (retry_from config wait fn rounds attempt w).0
  unfolding retry_from
  retry_from-keeps zero attempt w h = h
  retry_from-keeps (suc left) attempt w h =
      after_call-keeps (retry_from config wait fn left (attempt + 1))
        (retry_from-keeps left (attempt + 1)) attempt (fn w) (attempts w h)

  pub retry-keeps : (w : W) → P w → P (retry config wait fn w).0
  unfolding retry
  retry-keeps w h = retry_from-keeps (pos_part config.max_attempts) 0 w h
