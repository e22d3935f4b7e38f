-- ===== src/Sql/Replica.antt =====
-- db.go: the files and the containers of a replica and of a router. Filling a template does not fail, so
-- that the errors of the three functions that fill one are never returned.
pub mod Mounts
use zygote.Common.{
  Option, none, some, List, [], ◌∷◌, ◌++◌, Bytes, codes, Outcome, returned, ◌>>=◌, Result, ok, err,
}
use zygote.Errors.{Err, wrap}
use zygote.Cluster.{Env}
use zygote.Cert.{System}
use zygote.Container.{Docker, ContainerConfig}
use zygote.Container.Spawn.{Spawner}
use zygote.Container.Start.{start_container}
use zygote.Container.Input.{Inputs}
use zygote.Container.Certs.{put_file, make_certs_volume}
use zygote.Container.Templates.{SqlInitParams, sql_init, router_conf, cluster_conf, boot_conf}
use zygote.Sql.{SqlNode}
use zygote.Sql.Replication.{Parts}
use zygote.Sql.Containers.{
  InnoDbClusterParams, GroupBootstrapParams, sql_container_name, sql_router_container_name,
  cert_vol_name, db_config, router_config, destinations, cluster_params, boot_params,
}

-- A file of a volume, which is mounted on a directory.
pub record File : Type 0 where
  pub content : Bytes
  pub volume : Bytes
  pub dir : Bytes
  pub name : Bytes

unfoldable pub init_file : SqlNode → File
init_file s = record {
  content =
      sql_init (record { db_name = s.database_name; username = s.user; password = s.password });
  volume = sql_container_name s ++ codes "-conf";
  dir = codes "/docker-entrypoint-initdb.d";
  name = codes "init.sql";
}

unfoldable pub group_file : SqlNode → InnoDbClusterParams → File
group_file s c = record {
  content = cluster_conf c.server_id c.report_address c.report_port;
  volume = sql_container_name s ++ codes "-conf-gr";
  dir = codes "/etc/mysql/conf.d/";
  name = codes "gr.cnf";
}

unfoldable pub boot_file : SqlNode → GroupBootstrapParams → File
boot_file s b = record {
  content = boot_conf b.group_name b.local_address b.group_seeds b.group_ip_allow_list;
  volume = sql_container_name s ++ codes "-conf-gr";
  dir = codes "/etc/mysql/conf.d/";
  name = codes "gr-boot.cnf";
}

unfoldable pub router_file : SqlNode → Bytes → File
router_file s to = record {
  content = router_conf to;
  volume = sql_router_container_name s ++ codes "-conf";
  dir = codes "/etc/mysqlrouter/";
  name = codes "router.conf";
}

module _ {W : Type 0} (k : Docker W) (p : Spawner W) (n : Inputs W) (y : System W) (env : Env)
    (user_home : Result Err Bytes) (repo_full_name : Bytes) (s : SqlNode) where
  unfoldable pub write_file : File → W → Outcome W
  write_file f = put_file k p n y env s.tenant f.content f.volume f.dir f.name

  unfoldable pub sql_certs_volume : W → Outcome W
  sql_certs_volume =
      make_certs_volume k p n y env user_home s.tenant (cert_vol_name s) (sql_container_name s)
        (codes "my")

  unfoldable pub make_sql_conf_b_volume : W → Outcome (W × Option Err)
  make_sql_conf_b_volume w = do v ← write_file (init_file s) w; returned (v, none)

  unfoldable pub make_group_replication_config_volume : W → Outcome (W × Option Err)
  make_group_replication_config_volume w = do
    c ← cluster_params s
    v ← write_file (group_file s c) w
    returned (v, none)

  unfoldable pub make_group_replication_bootstrap_file : W → Outcome (W × Option Err)
  make_group_replication_bootstrap_file w = do
    b ← boot_params s
    v ← write_file (boot_file s b) w
    returned (v, none)

  unfoldable pub make_db : W → Outcome (W × Option Err)
  make_db w = do config ← db_config repo_full_name s; start_container k config w

  -- The part of `MakeSQLReplica` from the test of the second error on.
  unfoldable pub group_made : W × Option Err → Outcome (W × Option Err)
  group_made (w, some e) =
      returned (w, some (wrap (codes "failed to create group replication config volume: ") e))
  group_made (w, none) = make_db w

  unfoldable pub conf_made : W × Option Err → Outcome (W × Option Err)
  conf_made (w, some e) = returned (w, some (wrap (codes "failed to create SQL config volume: ") e))
  conf_made (w, none) = make_group_replication_config_volume w >>= group_made

  unfoldable pub make_sql_replica : W → Outcome (W × Option Err)
  make_sql_replica w = sql_certs_volume w >>= make_sql_conf_b_volume >>= conf_made

  unfoldable pub router_started : W × Option Err → W × Option Err
  router_started (w, none) = (w, none)
  router_started (w, some e) = (w, some (wrap (codes "failed to create router container: ") e))

  unfoldable pub make_sql_router : W → Outcome (W × Option Err)
  make_sql_router w = do
    to ← destinations s
    v ← write_file (router_file s to) w
    config ← router_config s
    r ← start_container k config v
    returned (router_started r)

-- The parts that `StartSQLContainers` calls.
unfoldable pub sql_parts :
    {W : Type 0}
    → Docker W
    → Spawner W
    → Inputs W
    → System W
    → Env
    → Result Err Bytes
    → Bytes
    → Parts W
sql_parts k p n y env user_home repo = record {
  make_sql_replica = make_sql_replica k p n y env user_home repo;
  make_sql_router = make_sql_router k p n y env user_home repo;
  make_bootstrap_file = make_group_replication_bootstrap_file k p n y env user_home repo;
}
