-- ===== src/Backoff/Final.antt =====
-- What a retried operation ends with: what each failed attempt and each wait keeps, where it fails,
-- and what an attempt that succeeds establishes, where it succeeds.
use zygote.Common.{
  Bool-cases, inl, inr, ℕ, zero, suc, ◌+◌, Option, none, some, ℤ, pos, pos_part, ltb_ℤ,
}
use zygote.Errors.{Err}
use zygote.Backoff.{BackoffConfig, delay, retry_from, retry, after_wait, after_call}

-- `P` of the state that an error is returned with, `Q` of the other.
abbrev pub Final : {W : Type 0} → (P Q : W → Type 0) → W × Option Err → Type 0
Final P Q (w, none) = Q w
Final P Q (w, some e) = P w

module _ {W : Type 0} (config : BackoffConfig) (wait : ℤ → W → W × Option Err)
    (fn : W → W × Option Err) (P Q : W → Type 0) (attempts : (w : W) → P w → Final P Q (fn w))
    (waits : (d : ℤ) (w : W) → P w → P (wait d w).0) where
  after_wait-Final :
      (next : W → W × Option Err)
      → ((w : W) → P w → Final P Q (next w))
      → (q : W × Option Err) → P q.0
      → Final P Q (after_wait config wait fn next q)
  unfolding after_wait
  after_wait-Final next keep (w, none) h = keep w h
  after_wait-Final next keep (w, some stop) h = h

  after_call-Final :
      (next : W → W × Option Err)
      → ((w : W) → P w → Final P Q (next w))
      → (attempt : ℕ) (p : W × Option Err) → Final P Q p
      → Final P Q (after_call config wait fn next attempt p)
  unfolding after_call
  after_call-Final next keep attempt (w, none) h = h
  after_call-Final next keep attempt (w, some e) h =
      elim (Bool-cases (ltb_ℤ (pos (attempt + 1)) config.max_attempts)) [
        | inl again ↦
            rw again (after_wait-Final next keep (wait (delay config attempt) w) (waits _ w h))
        | inr last ↦ rw last h
      ]

  retry_from-Final :
      (rounds attempt : ℕ) (w : W) → P w → Final P Q (retry_from config wait fn rounds attempt w)
  unfolding retry_from
  retry_from-Final zero attempt w h = h
  retry_from-Final (suc left) attempt w h =
      after_call-Final (retry_from config wait fn left (attempt + 1))
        (retry_from-Final left (attempt + 1)) attempt (fn w) (attempts w h)

  pub retry-Final : (w : W) → P w → Final P Q (retry config wait fn w)
  unfolding retry
  retry-Final w h = retry_from-Final (pos_part config.max_attempts) 0 w h
