-- ===== src/Examples/Mem.antt =====
-- Instances of the laws of the Redis cluster.
use zygote.Common.{
  ℕ, suc, ◌*◌, none, Option, List, [], ◌∷◌, ◌++◌, length, Bytes, codes, ℤ, pos, negsuc, wrap64,
  ◌+ℤ◌, returned, ◌≡◌, refl,
}
use zygote.Strconv.{itoa}
use zygote.Errors.{Err}
use zygote.Mem.{MemNode}
use zygote.Mem.Create.{base_command, create_redis_cluster_command, init}
use zygote.Mem.Cluster.{grid, create_redis_cluster_command-grid}

abbrev node : MemNode
node = record {
  tenant = codes "zygote";
  domain = codes "zygote.run";
  network_name = codes "mynet";
  shard_size = pos 3;
  num_shards = pos 2;
  shard_index = pos 0;
  rep_index = pos 0;
}

create_redis_cluster_command-grid_example :
    (nodes : List Bytes) × (create_redis_cluster_command node
      ≡ (base_command ++ nodes)
        ++ codes "--cluster-replicas"
          ∷ itoa (wrap64 (pos 3 +ℤ negsuc 0))
          ∷ codes "--cluster-yes"
          ∷ [])
    × (nodes ≡ grid node 2 0 3)
    × (length nodes ≡ 3 * 2)
create_redis_cluster_command-grid_example = create_redis_cluster_command-grid node 2 refl 2 refl

abbrev client : ℕ → ℕ × Option Err
client w = (w, none)

abbrev waits : ℤ → ℕ → ℕ × Option Err
waits d w = (w, none)

abbrev spawn : List Bytes → ℕ → ℕ × Option Err
spawn command w = (suc w, none)

inits : init client waits spawn node 0 ≡ returned 1
unfolding init zygote.Backoff.retry zygote.Backoff.retry_from zygote.Backoff.after_call
inits = refl
