-- ===== src/Commands/Nodes.antt =====
-- lib/cluster/commands/init.go, join.go and mem/memory.go's `CreateReplica`: making the nodes of a
-- cluster. The volume of certificates of a Redis node and its `redis-cli` are parameters.
use zygote.Common.{
  ℕ, Option, none, some, List, [], ◌∷◌, ◌++◌, if◌then◌else◌, Bytes, codes, ℤ, pos, pos_part,
  Outcome, returned, ◌>>=◌, Result, ok, err, map, range_from,
}
use zygote.Strings.{bytes_eq}
use zygote.Errors.{Err}
use zygote.Cluster.{Env, host_network_name, domain_name, tenant_name}
use zygote.Cluster.Index.{ClusterIndex, IndexError, get_cluster_index}
use zygote.Container.{Docker, app_network_name, fatal_if_err}
use zygote.Container.Start.{start_container}
use zygote.Container.Spawn.{Spawner, ensure_network}
use zygote.Tables.{Driver}
use zygote.Sql.{SqlNode, new_sql_node}
use zygote.Sql.Replication.{Queries, Parts, start_sql_containers}
use zygote.Mem.{MemNode, replica_config}
use zygote.Mem.Create.{init}
use zygote.Commands.{default_shard_size, default_num_shards}

-- The Redis node beside a SQL node.
unfoldable pub mem_node_of : Env → SqlNode → MemNode
unfolding bytes_eq app_network_name
mem_node_of env s = record {
  tenant = s.tenant;
  domain = s.domain;
  network_name =
      if bytes_eq s.network_name host_network_name then s.network_name else app_network_name env;
  shard_size = s.shard_size;
  num_shards = s.num_shards;
  shard_index = s.shard_index;
  rep_index = s.rep_index;
}

-- The node of `init` at a place of the grid, from `utils.RepoFullName()` and the flag `directory`.
unfoldable pub init_node : Env → Bytes → Bytes → ℕ → ℕ → SqlNode
unfolding new_sql_node app_network_name domain_name tenant_name
init_node env repo directory shard rep = record (new_sql_node repo (app_network_name env)) {
  domain = domain_name env;
  database_name = tenant_name env;
  tenant = tenant_name env;
  shard_index = pos shard;
  rep_index = pos rep;
  num_shards = default_num_shards;
  shard_size = default_shard_size;
  network_name = app_network_name env;
  migration_dir = directory;
}

nodes_from : Env → Bytes → Bytes → List ℕ → List SqlNode
unfolding init_node
nodes_from env repo directory [] = []
nodes_from env repo directory (shard ∷ shards) =
    map (init_node env repo directory shard) (range_from 0 (pos_part default_shard_size))
    ++ nodes_from env repo directory shards

-- The nodes in the order in which their goroutines are made.
unfoldable pub init_nodes : Env → Bytes → Bytes → List SqlNode
unfolding nodes_from
init_nodes env repo directory =
    nodes_from env repo directory (range_from 0 (pos_part default_num_shards))

-- The values of the flags of `join`.
pub record JoinFlags : Type 0 where
  pub domain : Bytes
  pub host : Bytes
  pub db : Bytes
  pub num_shards : ℤ
  pub shard_size : ℤ

at_index : SqlNode → Result IndexError ClusterIndex → Result IndexError SqlNode
at_index s (err e) = err e
at_index s (ok i) = ok (record s { shard_index = i.shard_index; rep_index = i.rep_index })

-- The node of `join`, whose place is read from the name of its host.
unfoldable pub join_node : Env → Bytes → JoinFlags → Result IndexError SqlNode
unfolding at_index new_sql_node get_cluster_index tenant_name app_network_name
join_node env repo f =
    at_index
      (record (new_sql_node repo (app_network_name env)) {
        domain = f.domain;
        network_name = host_network_name;
        database_name = f.db;
        tenant = tenant_name env;
        root_password = codes "root1234";
        num_shards = f.num_shards;
        shard_size = f.shard_size;
      })
      (get_cluster_index f.host)

module _ {W : Type 0} (k : Docker W) (p : Spawner W) (d : Driver W) (q : Queries W)
    (parts : Parts W) (make_certs_volume : MemNode → W → Outcome W) (wait : ℤ → W → W × Option Err)
    (redis_cli : List Bytes → W → W × Option Err) (env : Env) where
  -- `CreateReplica`.
  unfoldable pub create_replica : MemNode → W → Outcome W
  unfolding start_container replica_config fatal_if_err
  create_replica m w = do
    v ← make_certs_volume m w
    r ← start_container k (replica_config m) v
    fatal_if_err k (codes "Failed to start Redis container") r

  -- `createNode`.
  unfoldable pub create_node : SqlNode → W → Outcome W
  unfolding create_replica fatal_if_err ensure_network start_sql_containers init mem_node_of
  create_node s w = do
    v ← ensure_network k p s.network_name w
    r ← start_sql_containers d q parts s env v
    u ← fatal_if_err k (codes "Make SQL node") r
    t ← create_replica (mem_node_of env s) u
    init k.create_client wait redis_cli (mem_node_of env s) t

  unfoldable pub create_nodes : List SqlNode → W → Outcome W
  create_nodes [] w = returned w
  create_nodes (s ∷ ss) w = create_node s w >>= create_nodes ss

  -- The action of `init`, where the goroutines run one after the other in an order.
  unfoldable pub init_action : (List SqlNode → List SqlNode) → Bytes → Bytes → W → Outcome W
  unfolding create_nodes init_nodes
  init_action order repo directory w = create_nodes (order (init_nodes env repo directory)) w

  -- The action of `join`.
  unfoldable pub join_action : Bytes → JoinFlags → W → Outcome (W × Option IndexError)
  unfolding create_node join_node
  join_action repo f w = elim (join_node env repo f) [
    | err e ↦ returned (w, some e)
    | ok s ↦ do v ← create_node s w; returned (v, none)
  ]
