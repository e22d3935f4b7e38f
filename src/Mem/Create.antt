-- ===== src/Mem/Create.antt =====
-- lib/cluster/mem/memory.go: `createRedisClusterCommand`, and `Init`, which runs it once.
use zygote.Common.{
  ℕ, zero, suc, ◌*◌, ◌%◌, ◌||◌, Option, none, some, List, [], ◌∷◌, ◌++◌, if◌then◌else◌, not, Bytes,
  codes, ℤ, pos, negsuc, pos_part, eqb_ℤ, wrap64, ◌+ℤ◌, Outcome, returned, exited, ◌==◌,
}
use zygote.Strings.{bytes_eq, letter_of}
use zygote.Strconv.{itoa}
use zygote.Errors.{Err}
use zygote.Backoff.{BackoffConfig, retry, second}
use zygote.Cluster.{node_container, host_network_name}
use zygote.Mem.{MemNode, default_redis_port, cert_path, key_cert_path, ca_cert_path}

unfoldable pub on_port : Bytes → Bytes
on_port host = host ++ b':' ∷ itoa default_redis_port

-- What a round of the inner loop appends, with `shardIndex%m.NumShards` as its last argument.
unfoldable pub address_at : MemNode → ℕ → ℕ → ℕ → Bytes
unfolding bytes_eq on_port
address_at m rep shard in_shard =
    let shard_letter = letter_of (pos rep) in
    let contained = on_port (node_container (codes "mem") m.tenant (pos rep) (pos shard)) in
    let own_network = not (bytes_eq m.network_name host_network_name) in
    if in_shard == 0
    then (if own_network
        then contained
        else on_port (codes "shard-" ++ shard_letter ++ b'.' ∷ m.domain))
    else if own_network
    then contained
    else on_port (codes "shard-" ++ shard_letter ++ b'-' ∷ (itoa (pos in_shard) ++ b'.' ∷ m.domain))

-- The shard is below the number of shards, so the remainder is the one of the natural numbers.
unfoldable pub node_address : MemNode → ℕ → ℕ → Bytes
unfolding address_at
node_address m rep shard = address_at m rep shard (shard % pos_part m.num_shards)

-- The inner loop, from a shard on, with the rounds that are left.
unfoldable pub shards_from : MemNode → ℕ → ℕ → ℕ → List Bytes → List Bytes
shards_from m rep shard zero cmd = cmd
shards_from m rep shard (suc left) cmd =
    shards_from m rep (suc shard) left (cmd ++ node_address m rep shard ∷ [])

-- The outer loop.
unfoldable pub reps_from : MemNode → ℕ → ℕ → List Bytes → List Bytes
unfolding shards_from
reps_from m rep zero cmd = cmd
reps_from m rep (suc left) cmd =
    reps_from m (suc rep) left (shards_from m rep 0 (pos_part m.num_shards) cmd)

unfoldable pub base_command : List Bytes
base_command =
    codes "redis-cli"
    ∷ codes "--tls"
    ∷ codes "--cert"
    ∷ cert_path
    ∷ codes "--key"
    ∷ key_cert_path
    ∷ codes "--cacert"
    ∷ ca_cert_path
    ∷ codes "--cluster"
    ∷ codes "create"
    ∷ []

unfoldable pub create_redis_cluster_command : MemNode → List Bytes
unfolding base_command reps_from ◌+ℤ◌
create_redis_cluster_command m =
    reps_from m 0 (pos_part m.shard_size) base_command
    ++ codes "--cluster-replicas"
      ∷ itoa (wrap64 (m.shard_size +ℤ negsuc 0))
      ∷ codes "--cluster-yes"
      ∷ []

abbrev pub init_backoff : BackoffConfig
init_backoff = record {
  max_attempts = pos 10;
  initial_delay = pos (1 * second);
  max_delay = pos (60 * second);
}

-- `Init`: `client` is `CreateClinet`, `spawn` is `SpawnAndWait` with the command, where it returns.
module _ {W : Type 0} (client : W → W × Option Err) (wait : ℤ → W → W × Option Err)
    (spawn : List Bytes → W → W × Option Err) where
  unfoldable pub init_done : W × Option Err → Outcome W
  init_done (w, none) = returned w
  init_done (w, some e) = exited (codes "Create redis cluster")

  unfoldable pub init_with : MemNode → W × Option Err → Outcome W
  unfolding init_done
  init_with m (w, some e) = exited (codes "Create client for container")
  init_with m (w, none) =
      init_done (retry init_backoff wait (spawn (create_redis_cluster_command m)) w)

  unfoldable pub init : MemNode → W → Outcome W
  unfolding init_with
  init m w =
      if not (eqb_ℤ m.rep_index (pos 0)) || not (eqb_ℤ m.shard_index (pos 0))
      then returned w
      else init_with m (client w)
