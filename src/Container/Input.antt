-- ===== src/Container/Input.antt =====
-- container.go: containers that are given an input (`SpawnWithInput`, `Ark`, `Vol`), those whose output
-- is copied (`Spawn`), and the list of containers.
pub mod Written
use zygote.Common.{
  ℕ, ◌==◌, Bool, true, false, not, Option, none, some, List, [], ◌∷◌, ◌++◌, if◌then◌else◌, Bytes,
  codes, ℤ, pos, length, Outcome, returned, exited, ◌>>=◌, Result, ok, err,
}
use zygote.Strings.{bytes_eq}
use zygote.Strconv.{itoa}
use zygote.Errors.{Err}
use zygote.Backoff.{second}
use zygote.Cluster.{Env}
use zygote.Container.{Docker, Container, app_network_name, fatal_if_err, fatal_if_failed}
use zygote.Container.Pull.{pull}
use zygote.Container.Spawn.{SpawnRequest, Spawner, volume_binding, network_there}

-- More of the Docker client. `attach_input` is told whether the standard input is attached, `write_input`
-- returns the number of bytes written, and `wait_stopped` the error of the wait, if that comes first.
pub record Inputs (W : Type 0) : Type 0 where
  pub attach_input : Bool → Bytes → W → W × Option Err
  pub write_input : Bytes → Bytes → W → W × Result Err ℕ
  pub close_attached : Bytes → W → W
  pub wait_stopped : Bytes → W → W × Option Err
  pub copy_output : Bytes → W → W × Option Err

module _ {W : Type 0} (k : Docker W) (p : Spawner W) (n : Inputs W) where
  -- What follows the write of `text`.
  unfoldable pub wrote : Bytes → Bytes → W × Result Err ℕ → Outcome W
  wrote id text (w, err e) = exited (codes "Write to container's STDIN")
  wrote id text (w, ok count) =
      if count == length text
      then returned (n.close_attached id (k.sleep (pos second) w))
      else exited (codes "Failed to write to container's STDIN")

  -- The goroutine that writes the input, which is waited for.
  unfoldable pub give_input : Bytes → Bytes → W → Outcome W
  unfolding wrote bytes_eq
  give_input id input w =
      if bytes_eq input []
      then returned w
      else wrote id (input ++ b'\n' ∷ []) (n.write_input id (input ++ b'\n' ∷ []) w)

  -- The part of `SpawnWithInput` that follows the creation of the container.
  unfoldable pub run_with_input : Bytes → W × Bytes → Outcome W
  unfolding give_input fatal_if_err bytes_eq
  run_with_input input (w, id) = do
    a ← fatal_if_err k (codes "Attach to container") (n.attach_input (not (bytes_eq input [])) id w)
    b ← give_input id input a
    c ← fatal_if_err k (codes "Start container") (k.container_start id b)
    v ← fatal_if_err k (codes "Wait for container") (n.wait_stopped id c)
    returned (n.close_attached id v)

  unfoldable pub spawn_with_input :
      Bytes
      → Bytes
      → List Bytes
      → List (Bytes × Bytes)
      → List (Bytes × Bytes)
      → Bytes
      → Bytes
      → W
      → Outcome W
  unfolding fatal_if_err fatal_if_failed network_there volume_binding run_with_input
  spawn_with_input image tenant cmd ports volumes network input w = do
    a ← fatal_if_err k (codes "Create Docker client") (k.create_client w)
    b ← network_there k p network (p.network_inspect network a)
    v ← volume_binding k p volumes b
    r ← fatal_if_failed k (codes "Create container") (
        p.spawn_create
          (record {
            image = image;
            cmd = cmd;
            port_bindings = ports;
            binds = v.1;
            network_mode = network;
            name = tenant ++ b'-' ∷ itoa (p.now v.0);
          })
          v.0)
    run_with_input input r

  abbrev pub ark_image : Bytes
  ark_image = codes "ghcr.io/evgnomon/ark:main"

  unfoldable pub ark : Env → Bytes → Bytes → W → Outcome W
  unfolding app_network_name spawn_with_input
  ark env tenant script =
      spawn_with_input ark_image tenant (codes "bash" ∷ []) [] [] (app_network_name env)
        (script ++ codes " \n exit 0;")

  -- `Vol`: a file of a volume, from its content. The volume is mounted on the directory.
  unfoldable pub vol : Bytes → Bytes → Bytes → Bytes → Bytes → Bytes → W → Outcome W
  unfolding pull spawn_with_input
  vol tenant content volume dir file network w = do
    v ← pull k ark_image w
    spawn_with_input ark_image tenant
        (codes "bash" ∷ codes "-c" ∷ (codes "tee " ++ dir ++ b'/' ∷ file) ∷ []) []
        ((volume, dir) ∷ []) network content v

  -- The part of `Spawn` that follows the creation of the container.
  unfoldable pub run_copied : W × Bytes → Outcome W
  unfolding fatal_if_err
  run_copied (w, id) = do
    a ← fatal_if_err k (codes "Attach to container") (p.container_attach id w)
    b ← fatal_if_err k (codes "Start container") (k.container_start id a)
    v ← fatal_if_err k (codes "Copy output") (n.copy_output id b)
    returned (n.close_attached id v)

  unfoldable pub spawn : Bytes → List Bytes → List (Bytes × Bytes) → Bytes → W → Outcome W
  unfolding fatal_if_failed run_copied
  spawn image cmd ports network w = do
    r ← fatal_if_failed k (codes "Create container") (
        p.spawn_create
          (record {
            image = image;
            cmd = cmd;
            port_bindings = ports;
            binds = [];
            network_mode = network;
            name = [];
          })
          w)
    run_copied r
