-- ===== src/Examples/Migration.antt =====
-- An instance of the law of migrating up, on a connection for writing the first shard.
use zygote.Common.{ℕ, suc, true, none, some, [], ◌∷◌, codes, pos, ok, ◌≡◌, refl}
use zygote.Errors.{errorf}
use zygote.Tables.{new_multi_db_connector}
use zygote.Migration.{Migrate, Migration, up}

-- A migrator that finds nothing to change.
abbrev tool : Migrate ℕ
tool = record {
  path_exists = λ path w. true;
  with_instance = λ db w. (suc w, ok 1);
  new_with_database_instance = λ source driver w. (suc w, ok 2);
  up = λ k w. (suc w, some (errorf (codes "no change")));
  down = λ k w. (suc w, none);
  version = λ k w. (w, none);
}

abbrev migration : Migration
migration = record {
  directory = codes "sqls";
  connector = record {
    network = codes "mynet";
    configs = [];
    read_conns = [];
    write_conns = (pos 0, 7) ∷ [];
    domain = codes "zygote.run";
    target_read_port = pos 6447;
    target_write_port = pos 6446;
    tenant = codes "zygote";
    database = codes "mysql";
    num_shards = pos 1;
  };
}

migrates : up tool migration 0 ≡ (3, none)
unfolding up zygote.Tables.Close.get_write_connection zygote.Common.IntMap.lookup
    zygote.Tables.Connect.conns
migrates = refl
