-- ===== src/Examples/Cluster.antt =====
-- Tests and instances of the names, hosts, ports and indices of nodes.
use zygote.Common.{
  ℕ, [], codes, String, pos, negsuc, returned, exited, ok, err, ◌≡◌, refl, arith, if◌then◌else◌,
}
use zygote.Strings.{bytes_eq}
use zygote.Strconv.{atoi}
use zygote.Cluster.{
  Env, node_port, node_host, node_suffix_of, node_type, container_cert_name, host_network_name,
}
use zygote.Cluster.Index.{
  IndexError, get_cluster_index, invalid_hostname, not_a_shard, no_letter, not_a_letter,
  invalid_number,
}
use zygote.Cluster.Index.RoundTrip.{get_cluster_index-node_host}
use zygote.Cluster.Ports.{router_read, target_port, node_port_injective}

-- The table of the repository's test.
Accepts : String → ℕ → ℕ → Type 0
unfolding get_cluster_index
Accepts host r s =
    get_cluster_index (codes host) ≡ ok (record { rep_index = pos r; shard_index = pos s })

Rejects : String → IndexError → Type 0
Rejects host e = get_cluster_index (codes host) ≡ err e

accepted_hosts :
    Accepts "shard-a.zygote.run" 0 0
    × Accepts "shard-b-1.zygote.run" 1 1
    × Accepts "shard-e-3.zygote.run" 4 3
    × Accepts "shard-z-5.zygote.run" 25 5
    × Accepts "shard-A.foo.zygote.run" 0 0
    × Accepts "shard-B-1.zygote.run" 1 1
unfolding Accepts atoi
accepted_hosts = (refl, refl, refl, refl, refl, refl)

rejected_hosts :
    Rejects "" invalid_hostname
    × Rejects "shard-a" invalid_hostname
    × Rejects "node-a.zygote.run" not_a_shard
    × Rejects "shard-.zygote.run" no_letter
    × Rejects "shard-1.zygote.run" not_a_letter
    × Rejects "shard-a-xyz.zygote.run" invalid_number
unfolding Rejects get_cluster_index atoi
rejected_hosts = (refl, refl, refl, refl, refl, refl)

-- The environment of the second node of the third shard.
abbrev node_env : Env
node_env name =
    if bytes_eq name (codes "Z_DOMAIN")
    then codes "example.com"
    else if bytes_eq name (codes "Z_HOST")
    then codes "shard-b-2.example.com"
    else []

ports_test :
    (node_port (codes "mynet") (pos 3306) (pos 2) (pos 1) ≡ returned (pos 3426))
    × (node_port (codes "host") (pos 3306) (pos 2) (pos 1) ≡ returned (pos 3306))
    × (node_port (codes "mynet") (pos 3306) (negsuc 0) (pos 1)
        ≡ exited (codes "replicaIndex and shardIndex must be non-negative"))
unfolding node_port
ports_test = (refl, refl, refl)

suffix_test :
    (node_suffix_of (codes "cluster-node-b-2.example.com") (codes "example.com") ≡ codes "b-2")
    × (node_suffix_of (codes "myhost.other.com") (codes "example.com") ≡ [])
    × (node_type node_env ≡ returned (codes "shard"))
    × (container_cert_name node_env (codes "x") ≡ codes "x.example.com")
unfolding node_suffix_of node_type container_cert_name
suffix_test = (refl, refl, refl, refl)

get_cluster_index-node_host_example :
    get_cluster_index (node_host host_network_name (codes "zygote.run") (pos 3) (pos 12))
    ≡ ok (record { rep_index = pos 3; shard_index = pos 12 })
get_cluster_index-node_host_example =
    get_cluster_index-node_host (codes "zygote.run") 3 12 (omega arith) (omega arith)

node_port_injective_example : (router_read ≡ router_read) × (pos 2 ≡ pos 2) × (pos 1 ≡ pos 1)
unfolding node_port target_port bytes_eq
node_port_injective_example =
    node_port_injective (codes "mynet") router_read router_read (pos 2) (pos 1) (pos 2) (pos 1)
      (pos 6566) refl (omega arith) (omega arith) refl refl
