-- ===== src/Sql/Containers.antt =====
-- db.go: the settings of the containers of an SQL node, and the parameters of the files in them.
use zygote.Common.{
  [], ◌∷◌, ◌++◌, if◌then◌else◌, Bytes, codes, ℤ, pos, Outcome, returned, ◌>>=◌, wrap64, ◌+ℤ◌,
}
use zygote.Strings.{join}
use zygote.Strconv.{itoa}
use zygote.Cluster.{or_default}
use zygote.Common.IntMap.{insert}
use zygote.Container.{ContainerConfig}
use zygote.Sql.{
  SqlNode, on_host, map_port, container_name_of, endpoints, report_sql_instance_address,
  group_ip_allow_list_value, group_seeds_value, local_address_value, mysql_public_default_port,
  group_rep_default_port, router_port_num_read, router_port_num_write, localhost_ip,
}

abbrev pub mysql_image : Bytes
mysql_image = codes "evgnomon/mysql:8.4.4"

unfoldable pub sql_container_name : SqlNode → Bytes
unfolding container_name_of
sql_container_name s = container_name_of s (codes "sql")

unfoldable pub sql_router_container_name : SqlNode → Bytes
unfolding container_name_of
sql_router_container_name s = container_name_of s (codes "sql-router")

unfoldable pub cert_vol_name : SqlNode → Bytes
unfolding sql_container_name
cert_vol_name s = sql_container_name s ++ codes "-conf-cert"

-- The configuration that `MakeDB` starts.
unfoldable pub db_config : Bytes → SqlNode → Outcome ContainerConfig
unfolding or_default sql_container_name cert_vol_name insert map_port
db_config repo_full_name s =
    let name = sql_container_name s in
    do
      public ← map_port s mysql_public_default_port
      group ← map_port s group_rep_default_port
      returned (record {
        name = name;
        network_name = s.network_name;
        image = mysql_image;
        health_command =
            codes "CMD"
            ∷ codes "mysql"
            ∷ codes "-h"
            ∷ codes "localhost"
            ∷ codes "-u"
            ∷ codes "root"
            ∷ (codes "-p" ++ s.root_password)
            ∷ codes "-e"
            ∷ codes "SHOW tables;"
            ∷ or_default s.database_name repo_full_name
            ∷ [];
        bindings =
            (name ++ codes "-data:/var/lib/mysql")
            ∷ (name ++ codes "-conf-gr:/etc/mysql/conf.d")
            ∷ (name ++ codes "-conf:/docker-entrypoint-initdb.d")
            ∷ (cert_vol_name s ++ codes ":/etc/certs")
            ∷ [];
        caps = codes "SYS_NICE" ∷ [];
        env_vars = (codes "MYSQL_ROOT_PASSWORD=" ++ s.root_password) ∷ [];
        cmd = [];
        ports = insert group group_rep_default_port (insert public mysql_public_default_port []);
      })

-- The parameter of the file router.conf.
unfoldable pub destinations : SqlNode → Outcome Bytes
unfolding endpoints
destinations s = do addrs ← endpoints s; returned (join addrs (codes ","))

-- The configuration that `MakeSQLRouter` starts.
unfoldable pub router_config : SqlNode → Outcome ContainerConfig
unfolding sql_router_container_name insert map_port
router_config s =
    let name = sql_router_container_name s in
    do
      read ← map_port s router_port_num_read
      write ← map_port s router_port_num_write
      returned (record {
        name = name;
        network_name = s.network_name;
        image = mysql_image;
        health_command = codes "CMD" ∷ codes "true" ∷ [];
        bindings = (name ++ codes "-conf:/etc/mysqlrouter/") ∷ [];
        caps = codes "SYS_NICE" ∷ [];
        env_vars = (codes "MYSQL_PWD=" ++ s.password) ∷ [];
        cmd = codes "mysqlrouter" ∷ codes "--config=/etc/mysqlrouter/router.conf" ∷ [];
        ports = insert write router_port_num_write (insert read router_port_num_read []);
      })

pub record InnoDbClusterParams : Type 0 where
  pub server_id : ℤ
  pub group_replication_port : ℤ
  pub server_count : ℤ
  pub servers_list : Bytes
  pub report_address : Bytes
  pub report_port : ℤ

-- The parameters that `MakeGroupReplicationConfigVolume` fills its template with.
unfoldable pub cluster_params : SqlNode → Outcome InnoDbClusterParams
unfolding group_seeds_value report_sql_instance_address ◌+ℤ◌
cluster_params s = do
  seeds ← group_seeds_value s
  returned (record {
    server_id = wrap64 (s.rep_index +ℤ pos 1);
    group_replication_port = group_rep_default_port;
    server_count = s.shard_size;
    servers_list = seeds;
    report_address = report_sql_instance_address s;
    report_port = mysql_public_default_port;
  })

pub record GroupBootstrapParams : Type 0 where
  pub group_name : Bytes
  pub local_address : Bytes
  pub group_seeds : Bytes
  pub group_ip_allow_list : Bytes

-- The parameters that `MakeGroupReplicationBootstrapFile` fills its template with.
unfoldable pub boot_params : SqlNode → Outcome GroupBootstrapParams
unfolding local_address_value group_seeds_value group_ip_allow_list_value
boot_params s = do
  local ← local_address_value s
  seeds ← group_seeds_value s
  allowed ← group_ip_allow_list_value s
  returned (record {
    group_name = s.group_name;
    local_address = local;
    group_seeds = seeds;
    group_ip_allow_list = allowed;
  })

unfoldable pub dsn_at : SqlNode → ℤ → Bytes → Bytes
dsn_at s port db_name =
    codes "root:"
    ++ s.root_password
    ++ codes "@tcp("
    ++ localhost_ip
    ++ b':' ∷ (itoa port ++ codes ")/" ++ db_name ++ codes "?tls=sqlTLS")

unfoldable pub connection_string : SqlNode → Bytes → Outcome Bytes
unfolding dsn_at on_host
connection_string s db_name =
    let mapped : Outcome Bytes = do
      port ← map_port s mysql_public_default_port
      returned (dsn_at s port db_name)
    in if on_host s then returned (dsn_at s mysql_public_default_port db_name) else mapped
