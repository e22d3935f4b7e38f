-- ===== src/Backoff/Sound.antt =====
-- A retried operation that returns no error has succeeded.
use zygote.Common.{
  ℕ, zero, suc, ◌+◌, ◌<◌, Option, none, some, ℤ, pos, pos_part, ltb_ℤ, ◌≡◌, refl, sym, ap, ◌∙◌,
  arith, inl, inr, Bool-cases, ◌⊎◌,
}
use zygote.Errors.{Err}
use zygote.Backoff.{exhausted, BackoffConfig, delay, retry_from, retry, after_wait}
use zygote.Backoff.Outcome.{state_before, failed, waited, ok_round, failed_round, stopped_wait}

call-cases :
    {W : Type 0} (p : W × Option Err)
    → ((v : W) × (p ≡ (v, none))) ⊎ ((v : W) × (e : Err) × (p ≡ (v, some e)))
call-cases (v, none) = inl (v, refl)
call-cases (v, some e) = inr (v, e, refl)

module _ {W : Type 0} (config : BackoffConfig) (wait : ℤ → W → W × Option Err)
    (fn : W → W × Option Err) where
  -- Some attempt of the `rounds` from `attempt` on is reached and succeeds with the state `v`.
  abbrev pub Succeeds : ℕ → ℕ → W → W → Type 0
  Succeeds rounds attempt w v =
      (k : ℕ) × (u : W) × (k < rounds)
      × (state_before config wait fn attempt k w ≡ some u)
      × (fn u ≡ (v, none))

  failed_lem :
      (attempt : ℕ) (w x u : W) (e : Err)
      → fn w ≡ (x, some e)
      → wait (delay config attempt) x ≡ (u, none)
      → failed config wait fn attempt (fn w) ≡ some u
  unfolding failed waited
  failed_lem attempt w x u e h i =
      ap (failed config wait fn attempt) h ∙ ap (waited config wait fn) i

  Succeeds-later :
      (rounds attempt : ℕ) (w x u v : W) (e : Err)
      → fn w ≡ (x, some e)
      → wait (delay config attempt) x ≡ (u, none)
      → Succeeds rounds (attempt + 1) u v
      → Succeeds (suc rounds) attempt w v
  unfolding state_before
  Succeeds-later rounds attempt w x u v e h i (k, y, below, reached, done) =
      (suc k, y, omega arith, rw (state_before, failed_lem attempt w x u e h i) reached, done)

  not_ok : (p : W × Option Err) (x v : W) (e : Err) → p ≡ (v, none) → p ≡ (x, some e) → ⊥
  not_ok p x v e h i = ground arith

  after_wait_go :
      (next : W → W × Option Err) (q : W × Option Err) (u : W)
      → q ≡ (u, none)
      → after_wait config wait fn next q ≡ next u
  unfolding after_wait
  after_wait_go next q u h = ap (after_wait config wait fn next) h

  retry_from-Succeeds :
      (rounds attempt : ℕ) (w v : W)
      → retry_from config wait fn rounds attempt w ≡ (v, none)
      → Succeeds rounds attempt w v
  unfolding state_before
  retry_from-Succeeds zero attempt w v h = unfold retry_from in ground arith
  retry_from-Succeeds (suc left) attempt w v h = elim (call-cases (fn w)) [
    | inl (x, done) ↦
        let same = sym (ok_round config wait fn left attempt w x done) ∙ h in
        (0, w, omega arith, refl, done ∙ same)
    | inr (x, e, bad) ↦
        let round = failed_round config wait fn left attempt w x e bad in
        elim (Bool-cases (ltb_ℤ (pos (attempt + 1)) config.max_attempts)) [
          | inr last ↦
              let r : retry_from config wait fn (suc left) attempt w
                  ≡ (x, some (exhausted config e)) =
                round ∙ rw last in
              absurd (not_ok _ x v (exhausted config e) h r)
          | inl again ↦ elim (call-cases (wait (delay config attempt) x)) [
            | inr (u, stop, i) ↦
                let r : retry_from config wait fn (suc left) attempt w ≡ (u, some stop) =
                  round ∙ rw again (stopped_wait config wait fn _ _ u stop i) in
                absurd (not_ok _ u v stop h r)
            | inl (u, i) ↦ Succeeds-later left attempt w x u v e bad i (
                retry_from-Succeeds left (attempt + 1) u v
                  (sym (round ∙ rw again (after_wait_go _ _ u i)) ∙ h))
          ]
        ]
  ]

  -- No error is returned only if an attempt, one of at most the configured number, has succeeded
  -- after the attempts before it failed, and the state is the one that this attempt leaves.
  pub retry-Succeeds :
      (w v : W) → retry config wait fn w ≡ (v, none) → Succeeds (pos_part config.max_attempts) 0 w v
  unfolding retry
  retry-Succeeds w v h = retry_from-Succeeds (pos_part config.max_attempts) 0 w v h
