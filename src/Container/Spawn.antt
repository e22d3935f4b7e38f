-- ===== src/Container/Spawn.antt =====
-- container.go: containers that run to their end (`SpawnAndWait`), volumes and networks.
pub mod Status
use zygote.Common.{
  Bool, true, false, Option, none, some, List, [], ◌∷◌, ◌++◌, if◌then◌else◌, Bytes, codes, ℤ, pos,
  eqb_ℤ, Outcome, returned, exited, ◌>>=◌, Result, ok, err,
}
use zygote.Strings.{bytes_eq, starts_with}
use zygote.Strconv.{itoa}
use zygote.Errors.{Err, errorf}
use zygote.Cluster.{host_network_name}
use zygote.Container.{Docker, Container, fatal_if_err, fatal_if_failed}
use zygote.Container.Pull.{pull}

-- What `ContainerCreate` is given by `SpawnAndWait`.
pub record SpawnRequest : Type 0 where
  pub image : Bytes
  pub cmd : List Bytes
  pub port_bindings : List (Bytes × Bytes)
  pub binds : List Bytes
  pub network_mode : Bytes
  pub name : Bytes

-- More of the Docker client, and the clock in nanoseconds.
pub record Spawner (W : Type 0) : Type 0 where
  pub volume_inspect : Bytes → W → W × Option Err
  pub volume_create : Bytes → W → W × Option Err
  pub volume_list : W → W × Result Err (List Bytes)
  pub volume_remove : Bytes → W → W × Option Err
  pub network_inspect : Bytes → W → W × Option Err
  pub network_create : Bytes → W → W × Option Err
  pub spawn_create : SpawnRequest → W → W × Result Err Bytes
  pub container_attach : Bytes → W → W × Option Err
  pub container_wait : Bytes → W → W × Result Err ℤ
  pub container_stop : Bytes → W → W × Option Err
  pub container_remove : Bytes → W → W × Option Err
  pub now : W → ℤ

module _ {W : Type 0} (k : Docker W) (p : Spawner W) where
  -- A volume that an inspection does not find is created.
  unfoldable pub volume_there : Bytes → W × Option Err → Outcome W
  unfolding fatal_if_err
  volume_there name (w, none) = returned w
  volume_there name (w, some e) = fatal_if_err k (codes "Create volume") (p.volume_create name w)

  -- `volumeBinding`, over the entries of the map of volumes to the paths that they are mounted on.
  unfoldable pub volume_binding : List (Bytes × Bytes) → W → Outcome (W × List Bytes)
  unfolding volume_there
  volume_binding [] w = returned (w, [])
  volume_binding ((name, path) ∷ rest) w = do
    v ← volume_there name (p.volume_inspect name w)
    r ← volume_binding rest v
    returned (r.0, (name ++ b':' ∷ path) ∷ r.1)

  unfoldable pub exited_with : W × Result Err ℤ → Outcome (W × Option Err)
  exited_with (w, err e) = exited (codes "Wait for container")
  exited_with (w, ok status) =
      if eqb_ℤ status (pos 0)
      then returned (w, none)
      else returned
          (w, some (errorf (codes "container exited with non-zero status: " ++ itoa status)))

  -- The part of `SpawnAndWait` that follows the creation of the container. Its output goes to the log.
  unfoldable pub run_spawned : Bytes → W × Bytes → Outcome (W × Option Err)
  unfolding exited_with fatal_if_err
  run_spawned image (w, id) = do
    a ← fatal_if_err k (codes "Attach to container") (p.container_attach id w)
    b ← pull k image a
    c ← fatal_if_err k (codes "Start container") (k.container_start id b)
    exited_with (p.container_wait id c)

  unfoldable pub spawn_and_wait :
      Bytes
      → Bytes
      → List Bytes
      → List (Bytes × Bytes)
      → List (Bytes × Bytes)
      → Bytes
      → W
      → Outcome (W × Option Err)
  unfolding run_spawned volume_binding fatal_if_failed
  spawn_and_wait image tenant cmd ports volumes network w = do
    v ← volume_binding volumes w
    r ← fatal_if_failed k (codes "Create container") (
        p.spawn_create
          (record {
            image = image;
            cmd = cmd;
            port_bindings = ports;
            binds = v.1;
            network_mode = network;
            name = tenant ++ b'-' ∷ itoa (p.now v.0);
          })
          v.0)
    run_spawned image r

  -- The loop of `RemoveVolumePrefix`.
  unfoldable pub remove_volumes : Bytes → List Bytes → W → Outcome W
  unfolding fatal_if_err
  remove_volumes prefix [] w = returned w
  remove_volumes prefix (name ∷ names) w = elim (starts_with name prefix) [
    | false ↦ remove_volumes prefix names w
    | true ↦ do
      v ← fatal_if_err k (codes "Remove volume") (p.volume_remove name w)
      remove_volumes prefix names v
  ]

  unfoldable pub remove_volume_prefix : Bytes → W → Outcome W
  unfolding remove_volumes fatal_if_err fatal_if_failed
  remove_volume_prefix prefix w = do
    v ← fatal_if_err k (codes "Create Docker client") (k.create_client w)
    r ← fatal_if_failed k (codes "List volumes") (p.volume_list v)
    remove_volumes prefix r.1 r.0

  unfoldable pub remove_container : Bytes → W → Outcome W
  unfolding fatal_if_err
  remove_container id w = do
    a ← fatal_if_err k (codes "Create Docker client") (k.create_client w)
    b ← fatal_if_err k (codes "Stop container") (p.container_stop id a)
    fatal_if_err k (codes "Remove container") (p.container_remove id b)

  unfoldable pub network_there : Bytes → W × Option Err → Outcome W
  unfolding fatal_if_err
  network_there name (w, none) = returned w
  network_there name (w, some e) = fatal_if_err k (codes "Create network") (p.network_create name w)

  -- `NetworkConfig.Ensure`.
  unfoldable pub ensure_network : Bytes → W → Outcome W
  unfolding network_there fatal_if_err bytes_eq
  ensure_network name w = do
    v ← fatal_if_err k (codes "Create Docker client") (k.create_client w)
    (if bytes_eq name host_network_name
        then returned v
        else network_there name (p.network_inspect name v))
