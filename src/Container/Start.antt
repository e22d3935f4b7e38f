-- ===== src/Container/Start.antt =====
-- container.go: `WaitHealthy` and `StartContainer`.
use zygote.Common.{
  ℕ, zero, suc, ◌*◌, ◌/◌, Bool, true, false, Option, none, some, List, [], ◌∷◌, ◌++◌, if◌then◌else◌,
  Bytes, codes, pos, Outcome, returned, ◌>>=◌, Result, ok, err,
}
use zygote.Strings.{bytes_eq}
use zygote.Errors.{Err, errorf, wrap}
use zygote.Backoff.{second}
use zygote.Container.{
  Docker, Container, ContainerConfig, CreateError, conflict, other_error, create_request,
  with_prefix, fatal_if_err, fatal_if_failed,
}
use zygote.Container.Pull.{pull}

module _ {W : Type 0} (k : Docker W) where
  abbrev pub health_steps : ℕ
  health_steps = 200_000_000

  -- What an inspection leads to: the end, or the next round after a pause.
  unfoldable pub after_inspect : (W → W × Bool) → W × Result Err Bytes → W × Bool
  unfolding bytes_eq
  after_inspect next (w, err e) = (w, false)
  after_inspect next (w, ok status) =
      if bytes_eq status (codes "healthy") then (w, true) else next (k.sleep (pos health_steps) w)

  -- The goroutine of `checkHealth`, with the rounds that are left.
  unfoldable pub check_health : ℕ → Bytes → W → W × Bool
  unfolding after_inspect
  check_health zero id w = (w, false)
  check_health (suc left) id w = after_inspect (check_health left id) (k.health id w)

  -- The loop over the channels.
  unfoldable pub all_checked : (W → W × Bool) → W × Bool → W × Bool
  all_checked next (w, true) = next w
  all_checked next (w, false) = (w, false)

  -- The checks, which run at the same time, are put one after the other, and end at the first failure.
  unfoldable pub wait_all : ℕ → List Container → W → W × Bool
  unfolding all_checked check_health
  wait_all rounds [] w = (w, true)
  wait_all rounds (c ∷ cs) w = all_checked (wait_all rounds cs) (check_health rounds c.id w)

  -- Each check makes a client of its own first.
  unfoldable pub clients_made : List Container → W → Outcome W
  unfolding fatal_if_err
  clients_made [] w = returned w
  clients_made (c ∷ cs) w = do
    v ← fatal_if_err k (codes "Create Docker client") (k.create_client w)
    clients_made cs v

  unfoldable pub wait_listed : Bytes → ℕ → W × List Container → Outcome (W × Bool)
  unfolding wait_all clients_made with_prefix
  wait_listed prefix timeout (w, containers) =
      let chosen = with_prefix prefix containers in
      do v ← clients_made chosen w; returned (wait_all (timeout / health_steps) chosen v)

  unfoldable pub wait_healthy : Bytes → ℕ → W → Outcome (W × Bool)
  unfolding wait_listed fatal_if_err fatal_if_failed
  wait_healthy prefix timeout w = do
    v ← fatal_if_err k (codes "Create Docker client") (k.create_client w)
    u ← fatal_if_err k (codes "Create Docker client") (k.create_client v)
    r ← fatal_if_failed k (codes "List containers") (k.container_list u)
    wait_listed prefix timeout r

  abbrev pub start_timeout : ℕ
  start_timeout = 120 * second

  unfoldable pub waited_for : Bytes → W × Bool → Outcome (W × Option Err)
  waited_for name (w, true) = returned (w, none)
  waited_for name (w, false) =
      returned (w, some (errorf (codes "container " ++ name ++ codes " is not healthy")))

  unfoldable pub started : Bytes → W × Option Err → Outcome (W × Option Err)
  unfolding waited_for
  started name (w, some e) = returned (w, some (wrap (codes "failed to start container: ") e))
  started name (w, none) = wait_healthy name start_timeout w >>= waited_for name

  unfoldable pub created : Bytes → W × Result CreateError Bytes → Outcome (W × Option Err)
  unfolding started
  created name (w, err conflict) = returned (w, none)
  created name (w, err (other_error e)) =
      returned (w, some (wrap (codes "failed to create container: ") e))
  created name (w, ok id) = started name (k.container_start id w)

  unfoldable pub with_client : ContainerConfig → W × Option Err → Outcome (W × Option Err)
  unfolding created create_request
  with_client c (w, some e) = returned (w, some (wrap (codes "failed to create Docker client: ") e))
  with_client c (w, none) = do
    v ← pull k c.image w
    created c.name (k.container_create (create_request c) v)

  unfoldable pub start_container : ContainerConfig → W → Outcome (W × Option Err)
  unfolding with_client
  start_container c w = with_client c (k.create_client w)
