-- ===== src/Examples/Sql.antt =====
-- Instances of the laws of the SQL nodes and of the files of their schema's changes.
use zygote.Common.{ℕ, suc, ◌≤◌, none, [], ◌∷◌, codes, pos, returned, ok, ◌≡◌, refl}
use zygote.Strings.{bytes_eq}
use zygote.Cluster.{Env, node_port, container_name, domain_name}
use zygote.Sql.{
  SqlNode, new_sql_node, with_port, on_host, replication_host, generate_addresses,
  local_address_value, report_sql_instance_address, group_rep_default_port,
}
use zygote.Sql.Replication.{
  Queries, Parts, replicate, exec_all, join_group_replication, join_rounds, start_sql_containers,
  num_retries_join_group_replication,
}
use zygote.Sql.Replication.Retries.{Failures, start_sql_containers-none}
use zygote.Sql.Migrations.{SqlMigration, Files, create_column}
use zygote.Sql.Migrations.Generate.{sql_col, generate_column}
use zygote.Examples.World.{calm}

-- The second replica of the third shard.
abbrev node : SqlNode
node = record (new_sql_node (codes "org_repo") (codes "mynet")) {
  shard_index = pos 2;
  rep_index = pos 1;
}

-- The first replica, on the host network.
abbrev host_node : SqlNode
host_node = new_sql_node (codes "org_repo") (codes "host")

abbrev queries : Queries ℕ
queries = record {
  exec = λ h x w. (suc w, none);
  member_rows = λ h w. (w, ok (none ∷ []));
  sleep = λ d w. w;
}

abbrev parts : Parts ℕ
parts = record {
  make_sql_replica = λ s w. returned (suc w, none);
  make_sql_router = λ s w. returned (suc w, none);
  make_bootstrap_file = λ s w. returned (suc w, none);
}

abbrev env : Env
env name = []

rounds :
    join_rounds calm queries node env num_retries_join_group_replication 2 none
    ≡ returned (28, none)
unfolding join_rounds join_group_replication zygote.Sql.Replication.get_db container_name bytes_eq
    domain_name zygote.Sql.Containers.connection_string new_sql_node zygote.Sql.map_port node_port
    local_address_value zygote.Sql.group_seeds_value zygote.Sql.group_ip_allow_list_value replicate
    zygote.Sql.Replication.common_queries zygote.Sql.Replication.secondary_queries
    zygote.Sql.Replication.final_queries
rounds = refl

starts : start_sql_containers calm queries parts node env 0 ≡ returned (29, none)
unfolding start_sql_containers join_rounds join_group_replication zygote.Sql.Replication.get_db
    container_name bytes_eq domain_name zygote.Sql.Containers.connection_string new_sql_node
    zygote.Sql.map_port node_port local_address_value zygote.Sql.group_seeds_value
    zygote.Sql.group_ip_allow_list_value replicate zygote.Sql.Replication.common_queries
    zygote.Sql.Replication.secondary_queries zygote.Sql.Replication.final_queries
starts = refl

start_sql_containers-none_example :
    (a : ℕ) × (b : ℕ) × (c : ℕ) × (u : ℕ) × (k : ℕ) × (parts.make_sql_replica node 0
      ≡ returned (a, none))
    × (parts.make_sql_router node a ≡ returned (b, none))
    × (suc k ≤ num_retries_join_group_replication)
    × Failures calm queries node env k b u
    × (join_group_replication calm queries node env u ≡ returned (c, none))
    × (parts.make_bootstrap_file node c ≡ returned (29, none))
start_sql_containers-none_example =
    start_sql_containers-none calm queries node env parts 0 29 starts

-- Files whose number is counted; the clock stands still.
abbrev files : Files ℕ
files = record {
  mkdir_all = λ dir w. (w, none);
  now = λ w. pos 1700;
  write_file = λ path content w. (suc w, none);
}

column_made :
    generate_column files (codes "org_repo") (codes "price") [] (codes "items") (codes "json") 0
    ≡ (2, none)
unfolding generate_column create_column zygote.Sql.Migrations.resolve_default_value sql_col
    zygote.Sql.Migrations.save
column_made = refl
