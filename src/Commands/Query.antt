-- ===== src/Commands/Query.antt =====
-- lib/cluster/commands/queryCommand.go: the action of `query`. The lines of the standard input are an
-- argument, with the error that ended their reading; the database and JSON are parameters.
use zygote.Common.{
  true, false, Option, none, some, List, [], ◌∷◌, ◌++◌, Bytes, codes, ℤ, pos, Outcome, returned,
  exited, ◌>>=◌, Result, ok, err, ◌≡◌, refl,
}
use zygote.Common.IntMap.{lookup}
use zygote.Strings.{bytes_eq, trim_space}
use zygote.Strconv.{itoa}
use zygote.Errors.{Err, error_text}
use zygote.Cluster.{Env, or_default, domain_name}
use zygote.Container.{app_network_name}
use zygote.Tables.{Handle, MultiDbConnector, new_multi_db_connector}
use zygote.Tables.Connect.{conns, type_name}
use zygote.Tables.Close.{get_write_connection}
use zygote.Controllers.Sql.{RowSet, Sent, scan_all, row_maps}
use zygote.Commands.{router_read_write_port, router_read_only_port, default_num_shards}

abbrev pub default_tenant : Bytes
default_tenant = codes "zygote"

abbrev pub default_database_name : Bytes
default_database_name = codes "mysql"

abbrev pub default_shard : ℤ
default_shard = pos 0

pub record Database (W : Type 0) : Type 0 where
  pub ping : Handle → W → W × Option Err
  pub query : Handle → Bytes → W → W × Result Err RowSet
  pub marshal : List (List (Bytes × Sent)) → Result Err Bytes
  pub println : Bytes → W → W

-- A message on the standard error, and the status 1.
unfoldable pub exit_with : {W : Type 0} → Bytes → Err → Outcome W
unfolding error_text
exit_with text e = exited (text ++ error_text e)

unfoldable pub connector_for : Env → Bytes → MultiDbConnector
unfolding new_multi_db_connector app_network_name domain_name or_default
connector_for env database =
    new_multi_db_connector (app_network_name env) default_tenant (domain_name env)
      (or_default database default_database_name) router_read_only_port router_read_write_port
      default_num_shards

module _ {W : Type 0} (b : Database W) where
  print_json : Result Err Bytes → W → Outcome W
  unfolding exit_with
  print_json (err e) w = exit_with (codes "JSON marshaling failed: ") e
  print_json (ok text) w = returned (b.println text w)

  after_rows : Option Err → List (List (Bytes × Sent)) → W → Outcome W
  unfolding exit_with print_json
  after_rows (some e) results w = exit_with (codes "Row iteration error: ") e
  after_rows none results w = print_json (b.marshal results) w

  print_rows : RowSet → Result Err (List Bytes) → W → Outcome W
  unfolding exit_with after_rows scan_all row_maps
  print_rows r (err e) w = exit_with (codes "Failed to get columns: ") e
  print_rows r (ok columns) w = elim (scan_all r.rows) [
    | err e ↦ exit_with (codes "Failed to scan row: ") e
    | ok rows ↦ after_rows r.rows_err (row_maps columns rows) w
  ]

  answer : W × Result Err RowSet → Outcome W
  unfolding exit_with print_rows
  answer (w, err e) = exit_with (codes "Query execution failed: ") e
  answer (w, ok r) = print_rows r r.columns w

  -- The loop over the lines of the standard input.
  unfoldable pub answer_lines : Handle → List Bytes → W → Outcome W
  unfolding answer bytes_eq trim_space
  answer_lines h [] w = returned w
  answer_lines h (line ∷ lines) w = elim (bytes_eq (trim_space line) []) [
    | true ↦ answer_lines h lines w
    | false ↦ answer (b.query h (trim_space line) w) >>= answer_lines h lines
  ]

  read_to_end : Option Err → W → Outcome (W × Option Err)
  unfolding exit_with
  read_to_end (some e) w = exit_with (codes "Error reading stdin: ") e
  read_to_end none w = returned (w, none)

  after_ping : Handle → List Bytes → Option Err → W × Option Err → Outcome (W × Option Err)
  unfolding exit_with answer_lines read_to_end
  after_ping h lines scan_err (w, some e) = exit_with (codes "Database ping failed: ") e
  after_ping h lines scan_err (w, none) = answer_lines h lines w >>= read_to_end scan_err

  with_connection : List Bytes → Option Err → Result Err Handle → W → Outcome (W × Option Err)
  unfolding exit_with after_ping
  with_connection lines scan_err (err e) w = exit_with [] e
  with_connection lines scan_err (ok h) w = after_ping h lines scan_err (b.ping h w)

  -- The action, with the value of the flag `database`.
  unfoldable pub query_action : Env → Bytes → List Bytes → Option Err → W → Outcome (W × Option Err)
  unfolding with_connection connector_for get_write_connection
  query_action env database lines scan_err w =
      with_connection lines scan_err
        (get_write_connection default_shard (connector_for env database)) w

  -- Whatever the environment, the flag and the input are, the command ends the process at once: its
  -- connector is new, and nothing has connected it to a shard. No query is ever run.
  pub query_action-exits :
      (env : Env) (database : Bytes) (lines : List Bytes) (scan_err : Option Err) (w : W)
      → query_action env database lines scan_err w
        ≡ exited (codes "no write connection found for shard 0")
  unfolding query_action lookup conns type_name itoa
  query_action-exits env database lines scan_err w = refl
