-- ===== src/Sql/Replica/Mounts.antt =====
-- db.go: what `MakeSQLReplica` and `MakeSQLRouter` have done when they return no error.
use mathlib.Core.List.{Memᴰ}
use mathlib.Core.Path.{subst}
use zygote.Common.{
  Option, none, some, List, [], ◌∷◌, ◌++◌, Bytes, codes, Outcome, returned, ◌>>=◌, bind-returned,
  returned_injective, append_assoc, Result, ◌≡◌, refl, sym, ap, ◌∙◌,
}
use zygote.Errors.{Err}
use zygote.Paths.{clean}
use zygote.Cluster.{Env}
use zygote.Cert.{System}
use zygote.Container.{Docker, ContainerConfig}
use zygote.Container.Spawn.{Spawner}
use zygote.Container.Start.{start_container}
use zygote.Container.Input.{Inputs}
use zygote.Sql.{SqlNode, map_port, mysql_public_default_port, group_rep_default_port}
use zygote.Sql.Containers.{
  InnoDbClusterParams, sql_container_name, cert_vol_name, db_config, cluster_params,
}
use zygote.Sql.Replica.{
  File, init_file, group_file, write_file, sql_certs_volume, make_sql_conf_b_volume,
  make_group_replication_config_volume, make_db, group_made, conf_made, make_sql_replica,
}

-- The volume of a file is mounted on the directory that the file is in.
abbrev pub Mounted : File → ContainerConfig → Type 0
Mounted f config = Memᴰ (f.volume ++ b':' ∷ clean f.dir) config.bindings

db_bindings : SqlNode → List Bytes
db_bindings s =
    (sql_container_name s ++ codes "-data:/var/lib/mysql")
    ∷ (sql_container_name s ++ codes "-conf-gr:/etc/mysql/conf.d")
    ∷ (sql_container_name s ++ codes "-conf:/docker-entrypoint-initdb.d")
    ∷ (cert_vol_name s ++ codes ":/etc/certs")
    ∷ []

db_config-bindings :
    (repo : Bytes) (s : SqlNode) (config : ContainerConfig)
    → db_config repo s ≡ returned config
    → config.bindings ≡ db_bindings s
unfolding db_config db_bindings
db_config-bindings repo s config h =
    let (public, _, h1) = bind-returned (map_port s mysql_public_default_port) _ config h in
    let (group, _, h2) = bind-returned (map_port s group_rep_default_port) _ config h1 in
    ap (λ c. c.bindings) (sym (returned_injective _ config h2))

initdb_mount :
    codes "-conf" ++ b':' ∷ clean (codes "/docker-entrypoint-initdb.d")
    ≡ codes "-conf:/docker-entrypoint-initdb.d"
unfolding clean
initdb_mount = refl

conf_mount :
    codes "-conf-gr" ++ b':' ∷ clean (codes "/etc/mysql/conf.d/")
    ≡ codes "-conf-gr:/etc/mysql/conf.d"
unfolding clean
conf_mount = refl

-- A volume with a suffix, on a directory.
binding_lem :
    (name suffix dir mount : Bytes)
    → suffix ++ b':' ∷ clean dir ≡ mount
    → (name ++ suffix) ++ b':' ∷ clean dir ≡ name ++ mount
binding_lem name suffix dir mount e =
    append_assoc name suffix (b':' ∷ clean dir) ∙ ap (λ m. name ++ m) e

pub init_file-Mounted :
    (repo : Bytes) (s : SqlNode) (config : ContainerConfig)
    → db_config repo s ≡ returned config
    → Mounted (init_file s) config
unfolding init_file db_bindings
init_file-Mounted repo s config h =
    let here = binding_lem (sql_container_name s) (codes "-conf") _ _ initdb_mount in
    let member : Mounted (init_file s) (record config { bindings = db_bindings s }) =
      Memᴰ.tail (Memᴰ.tail (Memᴰ.head here)) in
    subst (Memᴰ _) (sym (db_config-bindings repo s config h)) member

pub group_file-Mounted :
    (repo : Bytes) (s : SqlNode) (c : InnoDbClusterParams) (config : ContainerConfig)
    → db_config repo s ≡ returned config
    → Mounted (group_file s c) config
unfolding group_file db_bindings
group_file-Mounted repo s c config h =
    let here = binding_lem (sql_container_name s) (codes "-conf-gr") _ _ conf_mount in
    let member : Mounted (group_file s c) (record config { bindings = db_bindings s }) =
      Memᴰ.tail (Memᴰ.head here) in
    subst (Memᴰ _) (sym (db_config-bindings repo s config h)) member

module _ {W : Type 0} (k : Docker W) (p : Spawner W) (n : Inputs W) (y : System W) (env : Env)
    (user_home : Result Err Bytes) (repo : Bytes) (s : SqlNode) where
  unfoldable pub write : File → W → Outcome W
  write = write_file k p n y env user_home repo s

  -- What happens from `w` to `v`, in this order: the certificates, the two files, the container. The
  -- container that is started mounts the volume of each file on its directory.
  pub record ReplicaMade (w v : W) : Type 0 where
    pub certs_there : W
    pub init_there : W
    pub group_there : W
    pub params : InnoDbClusterParams
    pub config : ContainerConfig
    pub certs_made : sql_certs_volume k p n y env user_home repo s w ≡ returned certs_there
    pub init_written : write (init_file s) certs_there ≡ returned init_there
    pub params_made : cluster_params s ≡ returned params
    pub group_written : write (group_file s params) init_there ≡ returned group_there
    pub config_made : db_config repo s ≡ returned config
    pub started : start_container k config group_there ≡ returned (v, none)
    pub init_mounted : Mounted (init_file s) config
    pub group_mounted : Mounted (group_file s params) config

  group_made-none :
      (r : W × Option Err) (v : W)
      → group_made k p n y env user_home repo s r ≡ returned (v, none)
      → (config : ContainerConfig) × (r.1 ≡ none)
        × (db_config repo s ≡ returned config)
        × (start_container k config r.0 ≡ returned (v, none))
  unfolding group_made make_db
  group_made-none (w, some e) v h = cc
  group_made-none (w, none) v h =
      let (config, made, started) =
        bind-returned (db_config repo s) (λ config. start_container k config w) (v, none) h in
      (config, refl, made, started)

  conf_made-none :
      (r : W × Option Err) (v : W)
      → conf_made k p n y env user_home repo s r ≡ returned (v, none)
      → (u : W × Option Err) × (make_group_replication_config_volume k p n y env user_home repo s
            r.0
          ≡ returned u)
        × (group_made k p n y env user_home repo s u ≡ returned (v, none))
  unfolding conf_made
  conf_made-none (w, some e) v h = cc
  conf_made-none (w, none) v h =
      bind-returned (make_group_replication_config_volume k p n y env user_home repo s w)
        (group_made k p n y env user_home repo s) (v, none) h

  -- If `MakeSQLReplica` returns no error, the certificates have been put into their volume, then init.sql
  -- and gr.cnf have been written, and then the container has been started, with a configuration that
  -- mounts the volumes of both files on the directories that they were written to.
  pub make_sql_replica-Made :
      (w v : W)
      → make_sql_replica k p n y env user_home repo s w ≡ returned (v, none)
      → ReplicaMade w v
  unfolding make_sql_replica make_sql_conf_b_volume make_group_replication_config_volume write
  make_sql_replica-Made w v h =
      let certs = sql_certs_volume k p n y env user_home repo s in
      let (r, conf, h1) =
        bind-returned (certs w >>= make_sql_conf_b_volume k p n y env user_home repo s)
          (conf_made k p n y env user_home repo s) (v, none) h in
      let (a, certified, h2) =
        bind-returned (certs w) (make_sql_conf_b_volume k p n y env user_home repo s) r conf in
      let (b, init, h3) = bind-returned (write (init_file s) a) (λ b. returned (b, none)) r h2 in
      let (u, grouped, h4) = conf_made-none r v h1 in
      let (c, params, h5) = bind-returned (cluster_params s) _ u grouped in
      let (x, group, h6) =
        bind-returned (write (group_file s c) r.0) (λ x. returned (x, none)) u h5 in
      let (config, _, made, start) = group_made-none u v h4 in
      let init_end = returned_injective _ r h3 in
      let group_end = returned_injective _ u h6 in
      record {
        certs_there = a;
        init_there = r.0;
        group_there = u.0;
        params = c;
        config = config;
        certs_made = certified;
        init_written = init ∙ ap (λ q. returned q.0) init_end;
        params_made = params;
        group_written = group ∙ ap (λ q. returned q.0) group_end;
        config_made = made;
        started = start;
        init_mounted = init_file-Mounted repo s config made;
        group_mounted = group_file-Mounted repo s c config made;
      }
