-- ===== src/Container/Health.antt =====
-- When `WaitHealthy` finds every container healthy.
use mathlib.Core.Path.{subst}
use zygote.Common.{
  ℕ, zero, suc, ◌≤◌, Bool, true, false, List, [], ◌∷◌, Bytes, codes, pos, Result, ok, err, ◌≡◌,
  refl, ap, ◌∙◌, arith, Bool-cases, inl, inr,
}
use zygote.Strings.{bytes_eq}
use zygote.Errors.{Err}
use zygote.Container.{Docker, Container}
use zygote.Container.Start.{check_health, after_inspect, all_checked, wait_all, health_steps}

module _ {W : Type 0} (k : Docker W) where
  -- `Polls n id w v`: of the inspections of a container, the first `n` show that it is not healthy yet,
  -- each with a pause after it, and the next one, which leaves `v`, that it is.
  pub data Polls (id : Bytes) : ℕ → W → W → Type 0 where
    healthy :
        {w v : W} (status : Bytes)
        → k.health id w ≡ (v, ok status)
        → bytes_eq status (codes "healthy") ≡ true
        → Polls id 0 w v
    later :
        {n : ℕ} {w u v : W} (status : Bytes)
        → k.health id w ≡ (u, ok status)
        → bytes_eq status (codes "healthy") ≡ false
        → Polls id n (k.sleep (pos (health_steps k)) u) v
        → Polls id (suc n) w v

  -- Within `rounds` inspections.
  abbrev pub Healthy : ℕ → Bytes → W → W → Type 0
  Healthy rounds id w v = (n : ℕ) × (suc n ≤ rounds) × Polls id n w v

  after_inspect-Healthy :
      (left : ℕ) (id : Bytes) (w v : W) (r : W × Result Err Bytes)
      → k.health id w ≡ r
      → after_inspect k (check_health k left id) r ≡ (v, true)
      → ((u : W) → check_health k left id u ≡ (v, true) → Healthy left id u v)
      → Healthy (suc left) id w v
  unfolding after_inspect
  after_inspect-Healthy left id w v (u, err e) seen h again = cc
  after_inspect-Healthy left id w v (u, ok status) seen h again =
      elim (Bool-cases (bytes_eq status (codes "healthy"))) [
        | inl now ↦
            let same : u ≡ v = ap (λ r. r.0) (rw now at h) in
            (0, omega arith, healthy status (seen ∙ ap (λ x. (x, ok status)) same) now)
        | inr not_yet ↦
            let (n, below, rest) = again (k.sleep (pos (health_steps k)) u) (rw not_yet at h) in
            (suc n, omega arith, later status seen not_yet rest)
      ]

  pub check_health-Healthy :
      (rounds : ℕ) (id : Bytes) (w v : W)
      → check_health k rounds id w ≡ (v, true)
      → Healthy rounds id w v
  unfolding check_health
  check_health-Healthy zero id w v h = cc
  check_health-Healthy (suc left) id w v h =
      after_inspect-Healthy left id w v (k.health id w) refl h
        (λ u e. check_health-Healthy left id u v e)

  -- Each container of a list has been found healthy, one after the other.
  pub data AllHealthy (rounds : ℕ) : List Container → W → W → Type 0 where
    no_more : {w : W} → AllHealthy rounds [] w w
    one_more :
        {c : Container} {cs : List Container} {w u v : W}
        → Healthy rounds c.id w u
        → AllHealthy rounds cs u v
        → AllHealthy rounds (c ∷ cs) w v

  all_checked-true :
      (next : W → W × Bool) (r : W × Bool) (v : W)
      → all_checked k next r ≡ (v, true)
      → (u : W) × (r ≡ (u, true)) × (next u ≡ (v, true))
  unfolding all_checked
  all_checked-true next (w, true) v h = (w, refl, h)
  all_checked-true next (w, false) v h = cc

  pub wait_all-AllHealthy :
      (rounds : ℕ) (cs : List Container) (w v : W)
      → wait_all k rounds cs w ≡ (v, true)
      → AllHealthy rounds cs w v
  unfolding wait_all
  wait_all-AllHealthy rounds [] w v h = subst (AllHealthy rounds [] w) (ap (λ r. r.0) h) no_more
  wait_all-AllHealthy rounds (c ∷ cs) w v h =
      let (u, first, rest) =
        all_checked-true (wait_all k rounds cs) (check_health k rounds c.id w) v h in
      one_more (check_health-Healthy rounds c.id w u first) (wait_all-AllHealthy rounds cs u v rest)
