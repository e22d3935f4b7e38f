-- ===== src/Mem/Endpoints.antt =====
-- The endpoints that `MemEndpoints` makes, and the ports that the nodes are given on their hosts.
use zygote.Common.{
  ℕ, zero, suc, ◌+◌, ◌*◌, ◌<◌, ◌^◌, true, false, map, Bytes, codes, pos, range_from, returned, ok,
  ◌≡◌, inl, inr, refl, arith, Bool-cases, ap, ◌∙◌, sym,
}
use zygote.Strings.{bytes_eq}
use zygote.Cluster.{node_host, node_port, host_network_name}
use zygote.Cluster.Ports.{node_port_on_host, node_port_first_replica, node_host_off}
use zygote.Mem.{
  MemEndpoint, MemNode, mem_endpoint, mem_endpoints_from, mem_endpoints, host_port,
  default_redis_port,
}

-- The endpoint of shard `i`.
abbrev pub expected : Bytes → Bytes → ℕ → ℕ → MemEndpoint
expected network domain port i = elim (bytes_eq network host_network_name) [
  | true ↦ record {
    index = pos i;
    host = node_host network domain (pos 0) (pos i);
    port = pos port;
  }
  | false ↦ record { index = pos i; host = codes "127.0.0.1"; port = pos (port + 100 * i) }
]

mem_endpoint_lem :
    (network domain : Bytes) (port i : ℕ)
    → port < 2 ^ 16
    → i < 2 ^ 32
    → mem_endpoint network domain (pos port) i ≡ returned (expected network domain port i)
unfolding mem_endpoint
mem_endpoint_lem network domain port i hp hi =
    elim (Bool-cases (bytes_eq network host_network_name)) [
      | inl on ↦
          rw (mem_endpoint, node_port_on_host network (pos port) (pos 0) (pos i) on, expected, on)
      | inr off ↦ rw (
        mem_endpoint,
        node_port_first_replica network port i off hp hi,
        node_host_off network domain (pos 0) (pos i) off,
        expected,
        off,
      )
    ]

mem_endpoints_from_lem :
    (network domain : Bytes) (port i n : ℕ)
    → port < 2 ^ 16
    → i + n < 2 ^ 32
    → mem_endpoints_from network domain (pos port) i n
      ≡ returned (map (expected network domain port) (range_from i n))
unfolding mem_endpoints_from
mem_endpoints_from_lem network domain port i zero hp hi = refl
mem_endpoints_from_lem network domain port i (suc n) hp hi = rw (
  mem_endpoint_lem network domain port i hp (omega arith),
  mem_endpoints_from_lem network domain port (suc i) n hp (omega arith),
)

-- With a positive number of shards and a positive port there is one endpoint for each shard, in order:
-- on the host network each on a host of its own with the port, off it on the local host, at ports a
-- hundred apart.
pub mem_endpoints_lem :
    (network domain : Bytes) (shards port : ℕ)
    → 0 < shards
    → shards < 2 ^ 32
    → 0 < port
    → port < 2 ^ 16
    → mem_endpoints network domain (pos shards) (pos port)
      ≡ returned (ok (map (expected network domain port) (range_from 0 shards)))
unfolding mem_endpoints
mem_endpoints_lem network domain shards port h k p p' =
    rw (mem_endpoints_from_lem network domain port 0 shards p' (omega arith)) (ground arith)

host_port_value :
    (m : MemNode) (i j : ℕ)
    → m.rep_index ≡ pos i
    → m.shard_index ≡ pos j
    → i < 2 ^ 32
    → j < 2 ^ 32
    → host_port m ≡ pos (6373 + 10 * i + 100 * j)
unfolding host_port
host_port_value m i j r s hi hj = rw (host_port, r, s) (ground arith)

node_port_off :
    (network : Bytes) (i j : ℕ)
    → bytes_eq network host_network_name ≡ false
    → i < 9
    → j < 2 ^ 32
    → node_port network default_redis_port (pos i) (pos j)
      ≡ returned (pos (6373 + 10 * i + 100 * j))
unfolding node_port
node_port_off network i j off hi hj = ground arith

-- Off the host network `CreateReplica` publishes a node at the port that `utils.NodePort` gives
-- it, for the nine replicas of each shard below 2^32.
pub host_port-node_port :
    (m : MemNode) (i j : ℕ)
    → m.rep_index ≡ pos i
    → m.shard_index ≡ pos j
    → i < 9
    → j < 2 ^ 32
    → bytes_eq m.network_name host_network_name ≡ false
    → node_port m.network_name default_redis_port m.rep_index m.shard_index ≡ returned (host_port m)
host_port-node_port m i j r s hi hj off =
    ap (λ z. node_port m.network_name default_redis_port z m.shard_index) r
    ∙ ap (node_port m.network_name default_redis_port (pos i)) s
    ∙ node_port_off m.network_name i j off hi hj
    ∙ ap returned (sym (host_port_value m i j r s (omega arith) hj))
