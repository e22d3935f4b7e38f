-- ===== src/Tables/Endpoints.antt =====
-- The endpoints that `SQLEndpoints` makes for the shards.
use zygote.Common.{
  if◌then◌else◌, ◌>>=◌, ℕ, zero, suc, ◌+◌, ◌*◌, ◌<◌, ◌^◌, Bool, true, false, ◌||◌, List, map, Bytes,
  codes, ℤ, pos, pos_part, leb_ℤ, range_from, Outcome, returned, exited, Result, ok, err, ◌≡◌, inl,
  inr, refl, arith, ◌↔◌, Bool-cases,
}
use zygote.Strings.{bytes_eq}
use zygote.Errors.{Err, errorf}
use zygote.Cluster.{node_host, host_network_name}
use zygote.Cluster.Ports.{node_port_on_host, node_port_first_replica, node_host_off}
use zygote.Tables.{ShardEndpoint, endpoint, endpoints_from, sql_endpoints}

-- The endpoint of shard `i`: on the host network all shards have the two ports, each on a host of its
-- own; off it they have one host, and ports a hundred apart.
abbrev pub expected : Bytes → Bytes → ℕ → ℕ → ℕ → ShardEndpoint
expected network domain read write i = elim (bytes_eq network host_network_name) [
  | true ↦ record {
    index = pos i;
    host = node_host network domain (pos 0) (pos i);
    read_port = pos read;
    write_port = pos write;
  }
  | false ↦ record {
    index = pos i;
    host = codes "127.0.0.1";
    read_port = pos (read + 100 * i);
    write_port = pos (write + 100 * i);
  }
]

endpoint_lem :
    (network domain : Bytes) (read write i : ℕ)
    → read < 2 ^ 16
    → write < 2 ^ 16
    → i < 2 ^ 32
    → endpoint network domain (pos read) (pos write) i
      ≡ returned (expected network domain read write i)
unfolding endpoint
endpoint_lem network domain read write i hr hw hi =
    elim (Bool-cases (bytes_eq network host_network_name)) [
      | inl on ↦ rw (
        endpoint,
        node_port_on_host network (pos read) (pos 0) (pos i) on,
        node_port_on_host network (pos write) (pos 0) (pos i) on,
        expected,
        on,
      )
      | inr off ↦ rw (
        endpoint,
        node_port_first_replica network read i off hr hi,
        node_port_first_replica network write i off hw hi,
        node_host_off network domain (pos 0) (pos i) off,
        expected,
        off,
      )
    ]

endpoints_from_lem :
    (network domain : Bytes) (read write i n : ℕ)
    → read < 2 ^ 16
    → write < 2 ^ 16
    → i + n < 2 ^ 32
    → endpoints_from network domain (pos read) (pos write) i n
      ≡ returned (map (expected network domain read write) (range_from i n))
unfolding endpoints_from
endpoints_from_lem network domain read write i zero hr hw hi = refl
endpoints_from_lem network domain read write i (suc n) hr hw hi = rw (
  endpoint_lem network domain read write i hr hw (omega arith),
  endpoints_from_lem network domain read write (suc i) n hr hw (omega arith),
)

-- With a positive number of shards below 2^32 and positive ports below 2^16 there is one endpoint
-- for each shard, in order, with the first replica's host and ports: as many as shards, and none
-- of the process's exits is met.
pub sql_endpoints_lem :
    (network domain : Bytes) (shards read write : ℕ)
    → 0 < shards
    → shards < 2 ^ 32
    → 0 < read
    → read < 2 ^ 16
    → 0 < write
    → write < 2 ^ 16
    → sql_endpoints network domain (pos shards) (pos read) (pos write)
      ≡ returned (ok (map (expected network domain read write) (range_from 0 shards)))
unfolding sql_endpoints
sql_endpoints_lem network domain shards read write h k r r' w w' =
    rw (endpoints_from_lem network domain read write 0 shards r' w' (omega arith)) (ground arith)

-- The two guards, over any tests and any result of the loop.
guarded :
    Bool
    → Bool
    → Err
    → Err
    → Outcome (List ShardEndpoint)
    → Outcome (Result Err (List ShardEndpoint))
guarded a b x y o =
    if a then returned (err x) else if b then returned (err y) else (o >>= λ es. returned (ok es))

guarded-err :
    (a b : Bool) (x y e : Err) (o : Outcome (List ShardEndpoint))
    → guarded a b x y o ≡ returned (err e)
    → (a || b) ≡ true
unfolding guarded
guarded-err true b x y e o h = refl
guarded-err false true x y e o h = refl
guarded-err false false x y e (returned es) h = cc
guarded-err false false x y e (exited m) h = cc

err-guarded :
    (a b : Bool) (x y : Err) (o : Outcome (List ShardEndpoint))
    → (a || b) ≡ true
    → (e : Err) × (guarded a b x y o ≡ returned (err e))
unfolding guarded
err-guarded true b x y o h = (x, refl)
err-guarded false true x y o h = (y, refl)
err-guarded false false x y o h = cc

-- The function reports an error exactly when the number of shards or a port is not positive.
pub sql_endpoints-err :
    (network domain : Bytes) (shards read write : ℤ)
    → ((e : Err) × (sql_endpoints network domain shards read write ≡ returned (err e)))
      ↔ ((leb_ℤ shards (pos 0) || (leb_ℤ read (pos 0) || leb_ℤ write (pos 0))) ≡ true)
unfolding sql_endpoints guarded
sql_endpoints-err network domain shards read write =
    let a = leb_ℤ shards (pos 0) in
    let b = leb_ℤ read (pos 0) || leb_ℤ write (pos 0) in
    let loop = endpoints_from network domain read write 0 (pos_part shards) in
    let x = errorf (codes "shard count must be positive") in
    let y = errorf (codes "base ports must be positive") in
    (λ h. guarded-err a b x y h.0 loop h.1, λ h. err-guarded a b x y loop h)
