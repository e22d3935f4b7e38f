-- ===== src/Migration.antt =====
-- lib/cluster/migration/migration.go: migrating the database of the first shard up and down.
pub mod Laws
use zygote.Common.{
  Bool, true, false, Option, none, some, List, ◌++◌, if◌then◌else◌, Bytes, codes, ℤ, pos, Outcome,
  returned, exited, ◌>>=◌, Result, ok, err,
}
use zygote.Common.IntMap.{IntMap}
use zygote.Strings.{bytes_eq}
use zygote.Errors.{Err, error_text, wrap}
use zygote.Cluster.{Env, domain_name}
use zygote.Container.{app_network_name}
use zygote.Tables.{Driver, Handle, ShardEndpoint, MultiDbConnector, State, new_multi_db_connector}
use zygote.Tables.Connect.{read_conn, write_conn}
use zygote.Tables.Close.{get_write_connection}
use zygote.Tables.Shards.{connect_all_shards}

-- A migrator of golang-migrate is known by a number.
abbrev pub Migrator : Type 0
Migrator = Handle

-- The package golang-migrate, and `utils.PathExists`. `version` has an error only where it is not that
-- no migration has been applied yet.
pub record Migrate (W : Type 0) : Type 0 where
  pub path_exists : Bytes → W → Bool
  pub with_instance : Handle → W → W × Result Err Handle
  pub new_with_database_instance : Bytes → Handle → W → W × Result Err Migrator
  pub up : Migrator → W → W × Option Err
  pub down : Migrator → W → W × Option Err
  pub version : Migrator → W → W × Option Err

pub record Migration : Type 0 where
  pub directory : Bytes
  pub connector : MultiDbConnector

module _ {W : Type 0} (g : Migrate W) (m : Migration) where
  unfoldable pub from_source : W × Result Err Migrator → W × Result Err Migrator
  from_source (w, ok k) = (w, ok k)
  from_source (w, err e) = (w, err (wrap (codes "dbMigrate NewWithDatabaseInstance: ") e))

  unfoldable pub from_driver : W × Result Err Handle → W × Result Err Migrator
  unfolding from_source
  from_driver (w, err e) = (w, err (wrap (codes "dbMigrate WithInstance: ") e))
  from_driver (w, ok driver) =
      from_source (g.new_with_database_instance (codes "file://" ++ m.directory) driver w)

  -- `Migrate`.
  unfoldable pub migrate : Handle → W → W × Result Err Migrator
  unfolding from_driver
  migrate db w = from_driver (g.with_instance db w)

  -- What follows the migration: an error that is not `no change` is returned.
  unfoldable pub unless_no_change : (W → W × Option Err) → W × Option Err → W × Option Err
  unfolding bytes_eq error_text
  unless_no_change next (w, none) = next w
  unless_no_change next (w, some e) =
      if bytes_eq (error_text e) (codes "no change") then next w else (w, some e)

  unfoldable pub with_migrator :
      (Migrator → W → W × Option Err) → W × Result Err Migrator → W × Option Err
  with_migrator run (w, err e) = (w, some e)
  with_migrator run (w, ok k) = run k w

  -- The connection of the first shard.
  unfoldable pub on_first_shard :
      (Migrator → W → W × Option Err) → Result Err Handle → W → W × Option Err
  unfolding with_migrator migrate
  on_first_shard run (err e) w = (w, some e)
  on_first_shard run (ok db) w = with_migrator run (migrate db w)

  unfoldable pub migrated : (Migrator → W → W × Option Err) → W → W × Option Err
  unfolding on_first_shard
  migrated run w =
      if g.path_exists m.directory w
      then on_first_shard run (get_write_connection (pos 0) m.connector) w
      else (w, none)

  unfoldable pub up : W → W × Option Err
  unfolding migrated unless_no_change
  up = migrated (λ k w. unless_no_change (λ v. (v, none)) (g.up k w))

  unfoldable pub down : W → W × Option Err
  unfolding migrated unless_no_change
  down = migrated (λ k w. unless_no_change (g.version k) (g.down k w))

-- `NewMigration`, with the orders of the goroutines that connect for reading and for writing.
module _ {W : Type 0} (d : Driver W) (env : Env) (host : Bytes)
    (reads writes : List ShardEndpoint → List ShardEndpoint) where
  unfoldable pub connected :
      Bytes → State W × IntMap (Option Handle) × Option Err → Outcome (State W)
  connected text (s, dbs, none) = returned s
  connected text (s, dbs, some e) = exited text

  unfoldable pub new_migration : Bytes → W → Outcome (W × Migration)
  unfolding connected connect_all_shards new_multi_db_connector app_network_name domain_name
  new_migration directory w = do
    a ← connect_all_shards d read_conn host reads (record {
      connector =
          new_multi_db_connector (app_network_name env) (codes "zygote") (domain_name env)
            (codes "mysql") (pos 6447) (pos 6446) (pos 3);
      world = w;
    })
    s ← connected (codes "migration: connect all shards read") a
    b ← connect_all_shards d write_conn host writes s
    t ← connected (codes "migration: connect all shards write") b
    returned (t.world, record { directory = directory; connector = t.connector })
