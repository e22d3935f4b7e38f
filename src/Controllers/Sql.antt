-- ===== src/Controllers/Sql.antt =====
-- lib/cluster/controller/sql.go: the handlers of queries, on the connection of the first shard, and
-- connection.go's `GenericQueryHandler`.
pub mod Laws
use zygote.Common.{
  ℕ, Bool, true, false, Option, none, some, List, [], ◌∷◌, if◌then◌else◌, Bytes, codes, ℤ, pos,
  Outcome, returned, exited, ◌>>=◌, Result, ok, err,
}
use zygote.Common.IntMap.{IntMap}
use zygote.Strings.{bytes_eq, trim_space}
use zygote.Errors.{Err}
use zygote.Cluster.{Env, domain_name}
use zygote.Container.{app_network_name}
use zygote.Tables.{Driver, Handle, ShardEndpoint, MultiDbConnector, State, new_multi_db_connector}
use zygote.Tables.Connect.{read_conn, write_conn}
use zygote.Tables.Operations.{retry_read_operation}
use zygote.Tables.Shards.{connect_all_shards}
use zygote.Http.{Exchange, send, send_error, send_internal_error, bind_body}

-- A value of a row: null, bytes, or another value with its text.
pub data Value : Type 0 where
  null : Value
  bytes : Bytes → Value
  other_value : Bytes → Value

-- What is sent of a value: bytes are sent as a string.
pub data Sent : Type 0 where
  nil : Sent
  string : Bytes → Sent
  as_is : Bytes → Sent

-- What a query gives: its columns, its rows, of which each is scanned or not, and the error after
-- the last row.
pub record RowSet : Type 0 where
  pub columns : Result Err (List Bytes)
  pub rows : List (Result Err (List Value))
  pub rows_err : Option Err

-- The rows of a response: names and values, or the fields of a struct.
pub data Rows : Type 0 where
  maps : List (List (Bytes × Sent)) → Rows
  structs : List (List Value) → Rows

unfoldable pub sent : Value → Sent
sent null = nil
sent (bytes b) = string b
sent (other_value b) = as_is b

-- The values of a row by the names of their columns: of a name that occurs twice the last value is the
-- one that counts. A row has a value for each column.
unfoldable pub row_map : List Bytes → List Value → List (Bytes × Sent)
unfolding sent
row_map [] values = []
row_map (c ∷ cs) [] = []
row_map (c ∷ cs) (v ∷ vs) = (c, sent v) ∷ row_map cs vs

-- The loop over the rows, and its first error.
unfoldable pub scan_all : List (Result Err (List Value)) → Result Err (List (List Value))
scan_all [] = ok []
scan_all (err e ∷ rows) = err e
scan_all (ok vs ∷ rows) = elim (scan_all rows) [ err e ↦ err e | ok rest ↦ ok (vs ∷ rest) ]

unfoldable pub row_maps : List Bytes → List (List Value) → List (List (Bytes × Sent))
unfolding row_map
row_maps cols [] = []
row_maps cols (vs ∷ rows) = row_map cols vs ∷ row_maps cols rows

-- `query` is `QueryContext`; its rows may be `nil`. `wait` is the wait between attempts.
module _ {W : Type 0} (x : Exchange W Bytes Rows)
    (query : Handle → Bytes → W → W × Result Err (Option RowSet)) (wait : ℤ → W → W × Option Err)
    (m : MultiDbConnector) where
  unfoldable pub finished : Option Err → Bytes → Rows → W → W × Option Err
  finished (some e) text rows = send_internal_error x text e
  finished none text rows = send x rows

  unfoldable pub scanned_rows :
      List Bytes → Option Err → Result Err (List (List Value)) → W → W × Option Err
  unfolding finished row_maps
  scanned_rows cols end (err e) = send_internal_error x (codes "Failed to scan row: ") e
  scanned_rows cols end (ok rows) =
      finished end (codes "Row iteration error") (maps (row_maps cols rows))

  unfoldable pub with_columns : RowSet → Result Err (List Bytes) → W → W × Option Err
  unfolding scanned_rows scan_all
  with_columns r (err e) = send_internal_error x (codes "Failed to get columns: ") e
  with_columns r (ok cols) = scanned_rows cols r.rows_err (scan_all r.rows)

  -- The closure of `QueryHandler`, after the query. Only an error of the query itself is returned.
  unfoldable pub queried : W × Result Err (Option RowSet) → W × Option Err
  unfolding with_columns
  queried (w, err e) = (w, some e)
  queried (w, ok none) =
      send_internal_error x (codes "Query returned no rows after multiple attempts") (Err.errorf [])
        w
  queried (w, ok (some r)) = with_columns r r.columns w

  unfoldable pub run_query : Bytes → Handle → W → W × Option Err
  unfolding queried
  run_query text h w = queried (query h text w)

  unfoldable pub with_query : (W × Bytes) × Option Err → W × Option Err
  unfolding run_query bytes_eq
  with_query ((w, body), some e) = (w, some e)
  with_query ((w, body), none) =
      let text = trim_space body in
      if bytes_eq text []
      then send_error x (codes "Query cannot be empty") w
      else retry_read_operation wait (pos 0) m (run_query text) w

  -- `QueryHandler`.
  unfoldable pub handle_query : W → W × Option Err
  unfolding with_query
  handle_query w = with_query (bind_body x w)

  -- The closure of `GenericQueryHandler`, for a slice of structs.
  unfoldable pub scanned_structs : Option Err → Result Err (List (List Value)) → W → W × Option Err
  unfolding finished
  scanned_structs end (err e) = send_internal_error x (codes "Failed to scan results") e
  scanned_structs end (ok rows) = finished end (codes "Error reading results") (structs rows)

  unfoldable pub listed : W × Result Err RowSet → W × Option Err
  unfolding scanned_structs scan_all
  listed (w, err e) = send_internal_error x (codes "Failed to execute query: ") e w
  listed (w, ok r) = scanned_structs r.rows_err (scan_all r.rows) w

  unfoldable pub generic_query_handler :
      (Handle → Bytes → W → W × Result Err RowSet) → ℤ → Bytes → W → W × Option Err
  unfolding listed
  generic_query_handler run shard text =
      retry_read_operation wait shard m (λ h w. listed (run h text w))

  unfoldable pub status_sent : W × Option Err → W × Option Err
  status_sent (w, none) = (w, none)
  status_sent (w, some e) = send_internal_error x (codes "Failed to execute query: ") e w

  -- `ClusterStatusHandler`, whose query is `text`.
  unfoldable pub handle_cluster_status :
      (Handle → Bytes → W → W × Result Err RowSet) → Bytes → W → W × Option Err
  unfolding status_sent generic_query_handler
  handle_cluster_status run text w = status_sent (generic_query_handler run (pos 0) text w)

-- `NewSQLQueryController`, with the orders of the goroutines that connect.
module _ {W : Type 0} (d : Driver W) (env : Env) (host : Bytes)
    (reads writes : List ShardEndpoint → List ShardEndpoint) where
  unfoldable pub connected_for :
      (State W → Outcome (State W × Option Err))
      → State W × IntMap (Option Handle) × Option Err
      → Outcome (State W × Option Err)
  connected_for next (s, dbs, none) = next s
  connected_for next (s, dbs, some e) = returned (s, some e)

  unfoldable pub new_sql_query_controller : W → Outcome (State W × Option Err)
  unfolding connected_for connect_all_shards new_multi_db_connector app_network_name domain_name
  new_sql_query_controller w = do
    a ← connect_all_shards d read_conn host reads (record {
      connector =
          new_multi_db_connector (app_network_name env) (codes "zygote") (domain_name env)
            (codes "mysql") (pos 6446) (pos 6447) (pos 3);
      world = w;
    })
    connected_for
        (λ s. do
          b ← connect_all_shards d write_conn host writes s
          connected_for (λ t. returned (t, none)) b)
        a
