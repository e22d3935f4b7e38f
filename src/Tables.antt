-- ===== src/Tables.antt =====
-- lib/cluster/tables/connection.go: the state of a `MultiDBConnector`, its configurations and the
-- endpoints of the shards. The operations are in the children.
pub mod Connect
pub mod Endpoints
pub mod Close
pub mod Operations
pub mod Shards
pub mod Pools
use zygote.Common.{
  ℕ, zero, suc, Bool, true, false, ◌||◌, Option, none, some, List, [], ◌∷◌, map, if◌then◌else◌,
  Bytes, codes, ℤ, pos, pos_part, leb_ℤ, ◌*◌, range_from, Outcome, returned, exited, ◌>>=◌, Result,
  ok, err,
}
use zygote.Common.IntMap.{IntMap, insert}
use zygote.Errors.{Err, errorf}
use zygote.Cluster.{node_host, node_port}

-- A `*sql.DB` is known by a number.
abbrev pub Handle : Type 0
Handle = ℕ

-- The packages `database/sql` and `go-sql-driver/mysql`, the certificates that they are given, and
-- the clock, over a state `W` of theirs. A call may fail; `none` is a `nil` error.
pub record Driver (W : Type 0) : Type 0 where
  pub register_tls_config : Bytes → W → W × Option Err
  pub open_db : Bytes → W → W × Result Err Handle
  pub set_max_open_conns : Handle → ℤ → W → W
  pub set_max_idle_conns : Handle → ℤ → W → W
  pub set_conn_max_lifetime : Handle → ℤ → W → W
  pub ping : Handle → W → W × Option Err
  pub close_db : Handle → W → W × Option Err
  pub wait : ℤ → W → W × Option Err

pub record ClientConfig : Type 0 where
  pub user : Bytes
  pub password : Bytes
  pub host : Bytes
  pub read_port : ℤ
  pub write_port : ℤ
  pub database : Bytes
  pub max_open_conns : ℤ
  pub max_idle_conns : ℤ
  pub conn_max_lifetime : ℤ

pub record ShardEndpoint : Type 0 where
  pub index : ℤ
  pub host : Bytes
  pub read_port : ℤ
  pub write_port : ℤ

-- The mutex is left out: each operation below is one step.
pub record MultiDbConnector : Type 0 where
  pub network : Bytes
  pub configs : IntMap ClientConfig
  pub read_conns : IntMap Handle
  pub write_conns : IntMap Handle
  pub domain : Bytes
  pub target_read_port : ℤ
  pub target_write_port : ℤ
  pub tenant : Bytes
  pub database : Bytes
  pub num_shards : ℤ

unfoldable pub new_multi_db_connector : Bytes → Bytes → Bytes → Bytes → ℤ → ℤ → ℤ → MultiDbConnector
new_multi_db_connector network tenant base_host database target_read_port target_write_port n =
    record {
      network = network;
      configs = [];
      read_conns = [];
      write_conns = [];
      domain = base_host;
      target_read_port = target_read_port;
      target_write_port = target_write_port;
      tenant = tenant;
      database = database;
      num_shards = n;
    }

-- The lifetime is five minutes, in nanoseconds.
unfoldable pub new_client_config : ℤ → ℤ → ClientConfig
new_client_config target_read_port target_write_port = record {
  user = codes "root";
  password = codes "root1234";
  host = codes "127.0.0.1";
  read_port = target_read_port;
  write_port = target_write_port;
  database = codes "mysql";
  max_open_conns = pos 25;
  max_idle_conns = pos 25;
  conn_max_lifetime = pos 300_000_000_000;
}

abbrev pub default_replica : ℤ
default_replica = pos 0

endpoint : Bytes → Bytes → ℤ → ℤ → ℕ → Outcome ShardEndpoint
endpoint network domain target_read_port target_write_port i = do
  read ← node_port network target_read_port (pos 0) (pos i)
  write ← node_port network target_write_port (pos 0) (pos i)
  returned (record {
    index = pos i;
    host = node_host network domain default_replica (pos i);
    read_port = read;
    write_port = write;
  })

-- The loop over the shards from `i` on, `n` of them.
endpoints_from : Bytes → Bytes → ℤ → ℤ → ℕ → ℕ → Outcome (List ShardEndpoint)
unfolding endpoint
endpoints_from network domain read write i zero = returned []
endpoints_from network domain read write i (suc n) = do
  e ← endpoint network domain read write i
  rest ← endpoints_from network domain read write (suc i) n
  returned (e ∷ rest)

unfoldable pub sql_endpoints : Bytes → Bytes → ℤ → ℤ → ℤ → Outcome (Result Err (List ShardEndpoint))
unfolding endpoints_from
sql_endpoints network domain num_shards target_read_port target_write_port =
    let all : Outcome (Result Err (List ShardEndpoint)) = do
      es ← endpoints_from network domain target_read_port target_write_port 0 (pos_part num_shards)
      returned (ok es)
    in if leb_ℤ num_shards (pos 0)
      then returned (err (errorf (codes "shard count must be positive")))
      else if leb_ℤ target_read_port (pos 0) || leb_ℤ target_write_port (pos 0)
      then returned (err (errorf (codes "base ports must be positive")))
      else all

unfoldable pub add_config : ℤ → ClientConfig → MultiDbConnector → MultiDbConnector
unfolding insert
add_config shard_index config m = record m { configs = insert shard_index config m.configs }

-- The connector and the state of what it calls.
pub record State (W : Type 0) : Type 0 where
  pub connector : MultiDbConnector
  pub world : W
