-- ===== src/Tables/Shards.antt =====
-- connection.go: `ConnectAllShardsRead` and `ConnectAllShardsWrite`. The goroutine of a shard is one
-- step, and `order` is the order in which the scheduler runs them: any rearrangement of the endpoints.
pub mod Laws
use zygote.Common.{
  none, some, Option, List, [], ◌∷◌, ◌++◌, Bytes, codes, Outcome, returned, exited, ◌>>=◌, Result,
  ok, err,
}
use zygote.Common.IntMap.{IntMap, insert}
use zygote.Strconv.{itoa}
use zygote.Errors.{Err, errorf, error_text}
use zygote.Tables.{
  Driver, Handle, ClientConfig, ShardEndpoint, MultiDbConnector, State, new_client_config,
  sql_endpoints, add_config,
}
use zygote.Tables.Connect.{
  ConnectionType, read_conn, write_conn, other_conn, Local, connect, type_name,
}
use zygote.Tables.Close.{texts}

-- The configuration that a goroutine adds. Only the one for reading names the connector's database.
unfoldable pub shard_config : ConnectionType → MultiDbConnector → ShardEndpoint → ClientConfig
unfolding new_client_config
shard_config read_conn m e = record (new_client_config e.read_port e.write_port) {
  host = e.host;
  read_port = e.read_port;
  write_port = e.write_port;
  database = m.database;
}
shard_config _ m e = record (new_client_config e.read_port e.write_port) {
  host = e.host;
  read_port = e.read_port;
  write_port = e.write_port;
}

-- The state, the handles by shard and the errors so far.
pub record Gathered (W : Type 0) : Type 0 where
  pub state : State W
  pub dbs : IntMap (Option Handle)
  pub connect_errors : List Err

module _ {W : Type 0} (d : Driver W) (t : ConnectionType) (host : Bytes) where
  -- The end of a goroutine, from what its connect returns.
  unfoldable pub gather :
      ShardEndpoint → Gathered W → (State W × Option Handle) × Option Err → Gathered W
  gather e g ((s, db), none) = record {
    state = s;
    dbs = insert e.index db g.dbs;
    connect_errors = g.connect_errors;
  }
  gather e g ((s, db), some x) = record {
    state = s;
    dbs = g.dbs;
    connect_errors =
        g.connect_errors
        ++ errorf (
            codes "failed to connect to shard "
            ++ itoa e.index
            ++ b' ' ∷ (type_name t ++ codes ": " ++ error_text x))
          ∷ [];
  }

  unfoldable pub with_config : ShardEndpoint → State W → State W
  unfolding add_config shard_config
  with_config e s = record s {
    connector = add_config e.index (shard_config t s.connector e) s.connector;
  }

  -- The body of a goroutine.
  unfoldable pub task : ShardEndpoint → Gathered W → Outcome (Gathered W)
  unfolding gather with_config
  task e g = do r ← connect d e.index t host (with_config e g.state); returned (gather e g r)

  unfoldable pub run_tasks : List ShardEndpoint → Gathered W → Outcome (Gathered W)
  unfolding task
  run_tasks [] g = returned g
  run_tasks (e ∷ es) g = do g' ← task e g; run_tasks es g'

  -- What is returned, from the errors.
  unfoldable pub verdict_of : Gathered W → List Err → State W × IntMap (Option Handle) × Option Err
  unfolding texts
  verdict_of g [] = (g.state, g.dbs, none)
  verdict_of g (x ∷ xs) = (
    g.state,
    g.dbs,
    some (
        errorf (codes "encountered errors connecting to shards: [" ++ texts (x ∷ xs) ++ codes "]")),
  )

  unfoldable pub verdict : Gathered W → State W × IntMap (Option Handle) × Option Err
  unfolding verdict_of
  verdict g = verdict_of g g.connect_errors

  -- What follows the calculation of the endpoints.
  unfoldable pub connect_endpoints :
      (List ShardEndpoint → List ShardEndpoint)
      → State W
      → Result Err (List ShardEndpoint)
      → Outcome (State W × IntMap (Option Handle) × Option Err)
  unfolding run_tasks verdict
  connect_endpoints order s (err e) =
      returned
        (s, [], some (errorf (codes "failed to calculate shard endpoints: " ++ error_text e)))
  connect_endpoints order s (ok es) = do
    g ← run_tasks (order es) (record { state = s; dbs = []; connect_errors = [] })
    returned (verdict g)

  unfoldable pub connect_all_shards :
      (List ShardEndpoint → List ShardEndpoint)
      → State W
      → Outcome (State W × IntMap (Option Handle) × Option Err)
  unfolding connect_endpoints
  connect_all_shards order s =
      let m = s.connector in
      do
        r ← sql_endpoints m.network m.domain m.num_shards m.target_read_port m.target_write_port
        connect_endpoints order s r
