-- ===== src/Sql/Replication.antt =====
-- db.go: `GetDB`, `JoinGroupReplication`, and `StartSQLContainers` with the loop that calls it.
pub mod Laws
pub mod Retries
use zygote.Common.{
  ℕ, zero, suc, ◌*◌, Bool, true, false, Option, none, some, List, [], ◌∷◌, ◌++◌, if◌then◌else◌,
  Bytes, codes, ℤ, pos, eqb_ℤ, Outcome, returned, exited, ◌>>=◌, Result, ok, err,
}
use zygote.Strconv.{itoa}
use zygote.Errors.{Err, errorf, wrap, error_text}
use zygote.Backoff.{second}
use zygote.Cluster.{Env, container_name, container_cert_name}
use zygote.Tables.{Driver, Handle}
use zygote.Sql.{SqlNode, local_address_value, group_seeds_value, group_ip_allow_list_value}
use zygote.Sql.Containers.{connection_string}

-- The statements that a node is set up with, from its addresses.
unfoldable pub common_queries : SqlNode → Bytes → Bytes → Bytes → List Bytes
common_queries s local seeds allowed =
    codes
      "SET @plugin_status = (SELECT COUNT(*) FROM INFORMATION_SCHEMA.PLUGINS WHERE PLUGIN_NAME = 'group_replication' AND PLUGIN_STATUS = 'ACTIVE');"
    ∷ codes
        "SET @sql = IF(@plugin_status = 0, 'INSTALL PLUGIN group_replication SONAME \\'group_replication.so\\'', 'SELECT \"Plugin already installed\"');"
    ∷ codes "PREPARE stmt FROM @sql;"
    ∷ codes "EXECUTE stmt;"
    ∷ codes "DEALLOCATE PREPARE stmt;"
    ∷ (codes "SET GLOBAL group_replication_group_name = '" ++ s.group_name ++ codes "'")
    ∷ (codes "SET GLOBAL group_replication_local_address = '" ++ local ++ codes "'")
    ∷ (codes "SET GLOBAL group_replication_group_seeds = '" ++ seeds ++ codes "'")
    ∷ (codes "SET GLOBAL group_replication_ip_allowlist = '" ++ allowed ++ codes "'")
    ∷ codes "SET GLOBAL group_replication_ssl_mode = 'REQUIRED'"
    ∷ codes "SET GLOBAL group_replication_recovery_use_ssl = 1"
    ∷ codes "SET GLOBAL group_replication_recovery_ssl_ca = '/etc/certs/my-ca-cert.pem'"
    ∷ codes "SET GLOBAL group_replication_recovery_ssl_cert = '/etc/certs/my-server-cert.pem'"
    ∷ codes "SET GLOBAL group_replication_recovery_ssl_key = '/etc/certs/my-server-key.pem'"
    ∷ codes "SET SQL_LOG_BIN = 0"
    ∷ codes "CREATE USER 'repl'@'%' IDENTIFIED with mysql_native_password BY 'strong_password'"
    ∷ codes "GRANT REPLICATION SLAVE, REPLICATION CLIENT ON *.* TO 'repl'@'%'"
    ∷ codes "FLUSH PRIVILEGES"
    ∷ codes "SET SQL_LOG_BIN = 1"
    ∷ []

abbrev pub bootstrap_on : Bytes
bootstrap_on = codes "SET GLOBAL group_replication_bootstrap_group = ON"

abbrev pub bootstrap_off : Bytes
bootstrap_off = codes "SET GLOBAL group_replication_bootstrap_group = OFF"

abbrev pub start_replication : Bytes
start_replication = codes "START GROUP_REPLICATION"

unfoldable pub secondary_queries : List Bytes
secondary_queries =
    codes "STOP GROUP_REPLICATION"
    ∷ codes "RESET BINARY LOGS AND GTIDS"
    ∷ codes "RESET REPLICA ALL"
    ∷ codes
        "CHANGE REPLICATION SOURCE TO SOURCE_USER = 'repl', SOURCE_PASSWORD = 'strong_password' FOR CHANNEL 'group_replication_recovery'"
    ∷ []

unfoldable pub final_queries : List Bytes
final_queries = start_replication ∷ bootstrap_off ∷ []

-- The queries, beside the calls of `Driver`: `Exec`, the `Query` for the members of the group, of
-- which each row is scanned or not, and `time.Sleep`.
pub record Queries (W : Type 0) : Type 0 where
  pub exec : Handle → Bytes → W → W × Option Err
  pub member_rows : Handle → W → W × Result Err (List (Option Err))
  pub sleep : ℤ → W → W

-- `if err != nil { return ... }`, with the error that is made of it.
unfoldable pub and_then :
    {W : Type 0} → (Err → Err) → W × Option Err → (W → W × Option Err) → W × Option Err
and_then f (w, none) next = next w
and_then f (w, some e) next = (w, some (f e))

-- The errors of the three parts. `%w` wraps, `%v` does not.
unfoldable pub common_error : SqlNode → Err → Err
common_error s e =
    wrap
      (codes "error executing query on replica index "
        ++ itoa s.rep_index
        ++ codes ", shardIndex: "
        ++ itoa s.shard_index
        ++ codes ", ")
      e

unfoldable pub replica_error : Bytes → SqlNode → Err → Err
replica_error what s e = errorf (
    codes "error "
    ++ what
    ++ codes " on replica index "
    ++ itoa s.rep_index
    ++ codes ": "
    ++ error_text e)

module _ {W : Type 0} (d : Driver W) (q : Queries W) (s : SqlNode) (h : Handle) where
  -- A loop over statements.
  unfoldable pub exec_all : (Err → Err) → List Bytes → W → W × Option Err
  unfolding and_then
  exec_all f [] w = (w, none)
  exec_all f (x ∷ xs) w = and_then f (q.exec h x w) (exec_all f xs)

  -- The part that depends on the replica.
  unfoldable pub node_specific : W → W × Option Err
  unfolding exec_all replica_error
  node_specific w =
      if eqb_ℤ s.rep_index (pos 0)
      then exec_all (replica_error (codes "setting bootstrap") s) (bootstrap_on ∷ []) w
      else exec_all (replica_error (codes "executing secondary query") s) secondary_queries w

  -- The loop over the rows.
  unfoldable pub scanned : List (Option Err) → W → W × Option Err
  scanned [] w = (w, none)
  scanned (none ∷ rows) w = scanned rows w
  scanned (some e ∷ rows) w = (w, some (replica_error (codes "scanning replication status") s e))

  unfoldable pub members : W × Result Err (List (Option Err)) → W × Option Err
  unfolding scanned replica_error
  members (w, err e) = (w, some (replica_error (codes "querying replication status") s e))
  members (w, ok rows) = scanned rows w

  -- `JoinGroupReplication` from the first statement on.
  unfoldable pub replicate : Bytes → Bytes → Bytes → W → W × Option Err
  unfolding and_then exec_all node_specific members
  replicate local seeds allowed w =
      and_then (λ e. e) (exec_all (common_error s) (common_queries s local seeds allowed) w)
        (λ u.
          and_then (λ e. e) (node_specific u)
            (λ v.
              and_then (λ e. e)
                (exec_all (replica_error (codes "executing final query") s) final_queries v)
                (λ x. members (q.member_rows h x))))

module _ {W : Type 0} (d : Driver W) (q : Queries W) (s : SqlNode) where
  -- `GetDB`, for a host's certificate. The error of the registration is dropped.
  unfoldable pub get_db : Env → W → Outcome (W × Result Err Handle)
  get_db env w = do
    name ← container_name env (codes "provisioner")
    dsn ← connection_string s s.database_name
    returned (d.open_db dsn (d.register_tls_config (container_cert_name env name) w).0)

  -- `defer db.Close()`, which drops its error.
  unfoldable pub closing : Handle → W × Option Err → W × Option Err
  closing h (w, e) = ((d.close_db h w).0, e)

  -- What follows `GetDB`.
  unfoldable pub with_db : W × Result Err Handle → Outcome (W × Option Err)
  unfolding closing
  with_db (w, err e) = exited (codes "Connect to database")
  with_db (w, ok h) = do
    local ← local_address_value s
    seeds ← group_seeds_value s
    allowed ← group_ip_allow_list_value s
    returned (closing h (replicate d q s h local seeds allowed w))

  unfoldable pub join_group_replication : Env → W → Outcome (W × Option Err)
  unfolding with_db
  join_group_replication env w = get_db env w >>= with_db

  -- One round of the loop in `StartSQLContainers`: the next one only follows an error.
  unfoldable pub after_join :
      (W → Option Err → Outcome (W × Option Err)) → W × Option Err → Outcome (W × Option Err)
  after_join next (w, none) = returned (w, none)
  after_join next (w, some e) = next (q.sleep (pos (5 * second)) w) (some e)

  -- The loop, with the rounds that are left and the last error.
  unfoldable pub join_rounds : Env → ℕ → W → Option Err → Outcome (W × Option Err)
  unfolding after_join
  join_rounds env zero w last = returned (w, last)
  join_rounds env (suc left) w last = do
    r ← join_group_replication env w
    after_join (join_rounds env left) r

-- The other parts of `StartSQLContainers`: `MakeSQLReplica`, `MakeSQLRouter` and
-- `MakeGroupReplicationBootstrapFile`.
pub record Parts (W : Type 0) : Type 0 where
  pub make_sql_replica : SqlNode → W → Outcome (W × Option Err)
  pub make_sql_router : SqlNode → W → Outcome (W × Option Err)
  pub make_bootstrap_file : SqlNode → W → Outcome (W × Option Err)

abbrev pub num_retries_join_group_replication : ℕ
num_retries_join_group_replication = 5

module _ {W : Type 0} (d : Driver W) (q : Queries W) (p : Parts W) (s : SqlNode) (env : Env) where
  unfoldable pub boot_file_made : W × Option Err → Outcome (W × Option Err)
  boot_file_made (w, none) = returned (w, none)
  boot_file_made (w, some e) = exited (codes "Create group replication bootstrap file")

  unfoldable pub joined : W × Option Err → Outcome (W × Option Err)
  unfolding boot_file_made
  joined (w, none) = p.make_bootstrap_file s w >>= boot_file_made
  joined (w, some e) = returned (w, some (wrap (codes "failed to join group replication: ") e))

  unfoldable pub router_made : W × Option Err → Outcome (W × Option Err)
  unfolding joined
  router_made (w, some e) = exited (codes "failed to create SQL router")
  router_made (w, none) = join_rounds d q s env num_retries_join_group_replication w none >>= joined

  unfoldable pub replica_made : W × Option Err → Outcome (W × Option Err)
  unfolding router_made
  replica_made (w, some e) = returned (w, some (wrap (codes "failed to create SQL replica: ") e))
  replica_made (w, none) = p.make_sql_router s w >>= router_made

  unfoldable pub start_sql_containers : W → Outcome (W × Option Err)
  unfolding replica_made
  start_sql_containers w = p.make_sql_replica s w >>= replica_made
