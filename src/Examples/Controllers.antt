-- ===== src/Examples/Controllers.antt =====
-- Instances of the laws of the handlers of the HTTP server.
use zygote.Common.{
  map, ℕ, suc, none, some, List, [], ◌∷◌, Bytes, codes, pos, ok, returned, ◌≡◌, refl,
}
use zygote.Errors.{errorf}
use zygote.Http.{Exchange, status_unauthorized}
use zygote.Controllers.Redis.{
  Redis, RedisState, QueryResult, text_reply, ensure_connection, is_fresh, attempts, query_handler,
}
use zygote.Controllers.Redis.Laws.{Matches, ensure_connection-Matches, query_handler_bad_body}
use zygote.Controllers.Nodes.Handler.{NodesAnswer, cluster_nodes_handler}
use zygote.Controllers.Redis.Start.{new_redis_query_controller}
use zygote.Controllers.Sql.{RowSet, Rows, bytes}
use zygote.Tables.{MultiDbConnector}

-- A Redis that answers every command; the state counts the answers that are sent.
abbrev redis : Redis ℕ
redis = record {
  new_client = λ w. (w, ok 1);
  ping = λ c w. (w, none);
  close_client = λ c w. w;
  exec = λ c args w. (w, ok (text_reply (codes "OK")));
  now = λ w. pos 100;
  since = λ t w. pos 1;
}

abbrev exchange : Exchange ℕ (List Bytes) QueryResult
exchange = record {
  bind = λ w. ((w, []), some (errorf (codes "unexpected EOF")));
  json = λ status payload w. (suc w, none);
  string = λ status body w. (suc w, none);
  peer_names = [];
}

abbrev connected : RedisState ℕ
connected = record { client = some 1; last_check = pos 99; world = 0 }

ensure_connection-Matches_example : Matches redis (ensure_connection redis connected)
ensure_connection-Matches_example = ensure_connection-Matches redis connected

query_handler_bad_body_example :
    query_handler redis exchange connected
    ≡ attempts redis exchange 2 [] (record connected { world = 1 })
unfolding is_fresh zygote.Http.send_error
query_handler_bad_body_example =
    query_handler_bad_body redis exchange connected 0 1 [] (errorf (codes "unexpected EOF")) refl
      refl refl

-- The words of a line.
abbrev master : List Bytes
master =
    codes "a"
    ∷ codes "b"
    ∷ codes "m"
    ∷ codes "-"
    ∷ codes "0"
    ∷ codes "1"
    ∷ codes "4"
    ∷ codes "c"
    ∷ []

-- A connection for reading the first shard.
abbrev connector : MultiDbConnector
connector = record {
  network = codes "mynet";
  configs = [];
  read_conns = (pos 0, 7) ∷ [];
  write_conns = [];
  domain = codes "zygote.run";
  target_read_port = pos 6446;
  target_write_port = pos 6447;
  tenant = codes "zygote";
  database = codes "mysql";
  num_shards = pos 1;
}

abbrev sql_exchange : Exchange ℕ Bytes Rows
sql_exchange = record {
  bind = λ w. ((w, codes " SELECT 1;\n"), none);
  json = λ status payload w. (suc w, none);
  string = λ status body w. (suc w, none);
  peer_names = [];
}

abbrev answer : RowSet
answer = record {
  columns = ok (codes "1" ∷ []);
  rows = map ok ((bytes (codes "1") ∷ []) ∷ []);
  rows_err = none;
}

-- A new controller has a client, and its handler of the nodes sends one answer.
abbrev nodes_exchange : Exchange ℕ (List Bytes) NodesAnswer
nodes_exchange = record {
  bind = λ w. ((w, []), none);
  json = λ status payload w. (suc w, none);
  string = λ status body w. (suc w, none);
  peer_names = [];
}

starts_controller :
    new_redis_query_controller redis (λ name. []) 0
    ≡ returned (0, ok (record { client = some 1; last_check = pos 100; world = 0 }))
unfolding new_redis_query_controller zygote.Mem.mem_endpoints zygote.Cluster.node_port
    zygote.Cluster.network_name zygote.Controllers.Redis.Start.with_endpoints
    zygote.Controllers.Redis.Start.usable ensure_connection
starts_controller = refl

sends_nodes :
    cluster_nodes_handler redis (λ c w. (w, ok (codes "too few fields"))) nodes_exchange connected
    ≡ returned (record connected { world = 1 }, none)
unfolding cluster_nodes_handler zygote.Controllers.Nodes.Handler.nodes_from_client ensure_connection
    zygote.Controllers.Nodes.Handler.nodes_listed zygote.Controllers.Nodes.Handler.nodes_answered
    zygote.Http.send
sends_nodes = refl
