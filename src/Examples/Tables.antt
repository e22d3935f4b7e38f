-- ===== src/Examples/Tables.antt =====
-- Instances of the laws of the connector, with a database whose handles are counted.
use mathlib.Core.List.{Memᴰ}
use zygote.Common.{
  ℕ, suc, false, Option, none, some, List, [], ◌∷◌, map, codes, ℤ, pos, ltb, range_from,
  if◌then◌else◌, returned, ok, ◌≡◌, ◌↔◌, refl, inl, arith,
}
use zygote.Common.IntMap.{IntMap, lookup, insert}
use zygote.Errors.{Err, errorf}
use zygote.Cluster.{node_port, node_host}
use zygote.Examples.World.{calm}
use zygote.Backoff.{retry, retry_from, after_call}
use zygote.Tables.{Handle, ShardEndpoint, MultiDbConnector, State, new_client_config, sql_endpoints}
use zygote.Tables.Connect.{read_conn, conns, connect, store, configure_pool}
use zygote.Tables.Connect.Laws.{connect-lookup}
use zygote.Tables.Close.{close, close_all, get_read_connection}
use zygote.Tables.Close.Laws.{close-lookup, close_all_empties}
use zygote.Tables.Close.Errors.{AllClose, closed, close_all-ok}
use zygote.Tables.Operations.{retry_operation}
use zygote.Tables.Operations.Laws.{retry_operation_sound, retry_operation-second}
use zygote.Tables.Pools.{
  Op, looking, connecting, closing, reading, Reply, Steps, view, exec_ops, exec_op,
}
use zygote.Tables.Pools.Refines.{exec_ops-Steps}
use zygote.Tables.Endpoints.{expected, sql_endpoints_lem}
use zygote.Tables.Shards.{connect_all_shards}
use zygote.Tables.Shards.Laws.{Held, connect_all_shards-Held}

abbrev bare : MultiDbConnector
bare = record {
  network = codes "mynet";
  configs = (pos 0, new_client_config (pos 6446) (pos 6447)) ∷ [];
  read_conns = [];
  write_conns = (pos 0, 7) ∷ (pos 1, 8) ∷ [];
  domain = codes "zygote.run";
  target_read_port = pos 6446;
  target_write_port = pos 6447;
  tenant = codes "zygote";
  database = codes "mysql";
  num_shards = pos 2;
}

abbrev start : State ℕ
start = record { connector = bare; world = 0 }

abbrev after : State ℕ
after = record { connector = record bare { read_conns = (pos 0, 0) ∷ [] }; world = 1 }

connects : connect calm (pos 0) read_conn (codes "db") start ≡ returned ((after, some 0), none)
unfolding connect retry retry_from after_call lookup conns store configure_pool insert
connects = refl

connect-lookup_example :
    (h : Handle) × (some 0 ≡ some h) × (lookup (pos 0) (conns read_conn after.connector) ≡ some h)
connect-lookup_example =
    connect-lookup calm (pos 0) read_conn (codes "db") start after (some 0) (inl refl) connects

abbrev both : State ℕ
both = record {
  connector = record bare {
    configs =
        (pos 0, new_client_config (pos 6446) (pos 6447))
        ∷ (pos 1, new_client_config (pos 6546) (pos 6547))
        ∷ [];
    read_conns = (pos 0, 0) ∷ (pos 1, 1) ∷ [];
  };
  world = 2;
}

abbrev handles : IntMap (Option Handle)
handles = (pos 0, some 0) ∷ (pos 1, some 1) ∷ []

connects_all :
    connect_all_shards calm read_conn (codes "db") (λ es. es) start ≡ returned (both, handles, none)
unfolding connect_all_shards sql_endpoints node_port connect retry retry_from after_call lookup
    conns store node_host configure_pool
connects_all = refl

connect_all_shards-Held_example :
    (es : List ShardEndpoint) × (sql_endpoints
        (codes "mynet")
        (codes "zygote.run")
        (pos 2)
        (pos 6446)
        (pos 6447)
      ≡ returned (ok es))
    × ((e : ShardEndpoint) → Memᴰ e es → Held read_conn both handles e.index)
connect_all_shards-Held_example =
    connect_all_shards-Held calm read_conn (codes "db") (inl refl) (λ es. es) (λ es e m. m) start
      both handles connects_all

close-lookup_example :
    let m = (close calm (pos 0) start).0.connector in
    (lookup (pos 1) m.read_conns ≡ lookup (pos 1) bare.read_conns)
    × (lookup (pos 1) m.write_conns ≡ lookup (pos 1) bare.write_conns)
close-lookup_example = close-lookup calm (pos 0) (pos 1) start

close_all_empties_example :
    let m = (close_all calm start).0.connector in
    (m.read_conns ≡ []) × (m.write_conns ≡ []) × (m.configs ≡ bare.configs)
close_all_empties_example = close_all_empties calm start

close_all-ok_example : ((close_all calm start).1 ≡ none) ↔ (
    AllClose calm bare.read_conns 0
    × AllClose calm bare.write_conns (closed calm bare.read_conns 0))
close_all-ok_example = close_all-ok calm start

abbrev failure : Err
failure = errorf (codes "Error 1064: syntax")

abbrev waits : ℤ → ℕ → ℕ × Option Err
waits d w = (w, none)

abbrev second_time : Handle → ℕ → ℕ × Option Err
second_time h w = if ltb w 1 then (suc w, some failure) else (w, none)

abbrev never : Handle → ℕ → ℕ × Option Err
never h w = (suc w, some failure)

found : get_read_connection (pos 0) after.connector ≡ ok 0
unfolding get_read_connection conns lookup
found = refl

retry_operation-second_example :
    retry_operation waits (pos 0) after.connector second_time false 0 ≡ (1, none)
retry_operation-second_example =
    retry_operation-second waits (pos 0) after.connector second_time false 0 found 0 1 1 failure
      refl refl 1 refl

retry_operation_sound_example : (u : ℕ) × (second_time 0 u ≡ (1, none))
retry_operation_sound_example =
    retry_operation_sound waits (pos 0) after.connector second_time false 0 0 1 found (
      retry_operation-second waits (pos 0) after.connector second_time false 0 found 0 1 1 failure
        refl refl 1 refl)

sql_endpoints_lem_example :
    sql_endpoints (codes "host") (codes "zygote.run") (pos 2) (pos 6446) (pos 6447)
    ≡ returned (ok (map (expected (codes "host") (codes "zygote.run") 6446 6447) (range_from 0 2)))
sql_endpoints_lem_example =
    sql_endpoints_lem (codes "host") (codes "zygote.run") 2 6446 6447 (omega arith) (omega arith)
      (omega arith) (omega arith) (omega arith) (omega arith)

abbrev some_ops : List Op
some_ops =
    connecting reading (pos 0)
    ∷ looking reading (pos 0)
    ∷ closing (pos 0)
    ∷ looking reading (pos 0)
    ∷ []

abbrev some_replies : List Reply
some_replies =
    (some 0, none)
    ∷ (some 0, none)
    ∷ (none, none)
    ∷ (none, some (errorf (codes "no read connection found for shard 0")))
    ∷ []

abbrev at_end : State ℕ
at_end = record { connector = record bare { write_conns = (pos 1, 8) ∷ [] }; world = 1 }

runs_ops : exec_ops calm (codes "db") some_ops start ≡ returned (at_end, some_replies)
unfolding exec_ops exec_op connect close retry get_read_connection lookup conns retry_from
    after_call store insert zygote.Common.IntMap.delete configure_pool
    zygote.Tables.Connect.type_name zygote.Strconv.itoa
runs_ops = refl

exec_ops-Steps_example : Steps some_ops some_replies (view start.connector) (view at_end.connector)
exec_ops-Steps_example =
    exec_ops-Steps calm (codes "db") some_ops start at_end some_replies runs_ops
