-- ===== src/Mem.antt =====
-- lib/cluster/memconn/mem_conn.go and lib/cluster/mem/memory.go: the endpoints of the Redis cluster,
-- its nodes, and the command that makes the cluster.
pub mod Certs
pub mod Endpoints
pub mod Create
pub mod Cluster
use zygote.Common.{
  ℕ, zero, suc, ◌+◌, ◌*◌, Bool, true, false, ◌||◌, Option, none, some, List, [], ◌∷◌, ◌++◌, map,
  if◌then◌else◌, not, Bytes, codes, ℤ, pos, pos_part, leb_ℤ, ltb_ℤ, eqb_ℤ, wrap64, ◌+ℤ◌, ◌*ℤ◌,
  negsuc, Outcome, returned, exited, ◌>>=◌, Result, ok, err,
}
use zygote.Common.IntMap.{insert}
use zygote.Strings.{bytes_eq, letter_of}
use zygote.Strconv.{itoa}
use zygote.Errors.{Err, errorf}
use zygote.Backoff.{BackoffConfig, retry, second}
use zygote.Cluster.{
  Env, node_host, node_port, node_container, host_network_name, network_name, domain_name,
}
use zygote.Container.{ContainerConfig}

pub record MemEndpoint : Type 0 where
  pub index : ℤ
  pub host : Bytes
  pub port : ℤ

unfoldable pub endpoint_text : MemEndpoint → Bytes
endpoint_text e = e.host ++ b':' ∷ itoa e.port

unfoldable pub mem_endpoint : Bytes → Bytes → ℤ → ℕ → Outcome MemEndpoint
mem_endpoint network domain target_port i = do
  port ← node_port network target_port (pos 0) (pos i)
  returned (record { index = pos i; host = node_host network domain (pos 0) (pos i); port = port })

-- The loop over the shards from `i` on, `n` of them.
unfoldable pub mem_endpoints_from : Bytes → Bytes → ℤ → ℕ → ℕ → Outcome (List MemEndpoint)
unfolding mem_endpoint
mem_endpoints_from network domain target_port i zero = returned []
mem_endpoints_from network domain target_port i (suc n) = do
  e ← mem_endpoint network domain target_port i
  rest ← mem_endpoints_from network domain target_port (suc i) n
  returned (e ∷ rest)

unfoldable pub mem_endpoints : Bytes → Bytes → ℤ → ℤ → Outcome (Result Err (List MemEndpoint))
unfolding mem_endpoints_from
mem_endpoints network domain num_shards target_port =
    let all : Outcome (Result Err (List MemEndpoint)) = do
      es ← mem_endpoints_from network domain target_port 0 (pos_part num_shards)
      returned (ok es)
    in if leb_ℤ num_shards (pos 0)
      then returned (err (errorf (codes "shard count must be positive")))
      else if leb_ℤ target_port (pos 0)
      then returned (err (errorf (codes "base ports must be positive")))
      else all

abbrev pub target_read_port : ℤ
target_read_port = pos 6373

unfoldable pub addresses : Result Err (List MemEndpoint) → List Bytes
unfolding endpoint_text
addresses (ok es) = map endpoint_text es
addresses (err e) = []

-- The addresses that `Client` connects to.
unfoldable pub client_addrs : Env → Outcome (List Bytes)
unfolding mem_endpoints addresses network_name domain_name
client_addrs env = do
  r ← mem_endpoints (network_name env) (domain_name env) (pos 2) target_read_port
  returned (addresses r)

pub record MemNode : Type 0 where
  pub tenant : Bytes
  pub domain : Bytes
  pub network_name : Bytes
  pub shard_size : ℤ
  pub num_shards : ℤ
  pub shard_index : ℤ
  pub rep_index : ℤ

unfoldable pub new_mem_node : MemNode
new_mem_node = record {
  tenant = [];
  domain = [];
  network_name = host_network_name;
  shard_size = pos 3;
  num_shards = pos 0;
  shard_index = pos 0;
  rep_index = pos 0;
}

abbrev pub default_redis_port : ℤ
default_redis_port = pos 6373

unfoldable pub mem_container_name : MemNode → Bytes
mem_container_name m = node_container (codes "mem") m.tenant m.rep_index m.shard_index

unfoldable pub cert_vol_name : MemNode → Bytes
unfolding mem_container_name
cert_vol_name m = mem_container_name m ++ codes "-conf-cert"

abbrev pub cert_path : Bytes
cert_path = codes "/etc/certs/mem-server-cert.pem"

abbrev pub key_cert_path : Bytes
key_cert_path = codes "/etc/certs/mem-server-key.pem"

abbrev pub ca_cert_path : Bytes
ca_cert_path = codes "/etc/certs/mem-ca-cert.pem"

-- The port of a node on its host, which `CreateReplica` calculates itself.
unfoldable pub host_port : MemNode → ℤ
unfolding ◌+ℤ◌ ◌*ℤ◌
host_port m = wrap64 (default_redis_port +ℤ m.rep_index *ℤ pos 10 +ℤ m.shard_index *ℤ pos 100)

-- The configuration that `CreateReplica` starts.
unfoldable pub replica_config : MemNode → ContainerConfig
unfolding mem_container_name cert_vol_name host_port insert
replica_config m = record {
  name = mem_container_name m;
  network_name = m.network_name;
  image = codes "redis:7.4.2";
  health_command =
      codes "CMD"
      ∷ codes "redis-cli"
      ∷ codes "--tls"
      ∷ codes "-p"
      ∷ itoa default_redis_port
      ∷ codes "--cert"
      ∷ cert_path
      ∷ codes "--key"
      ∷ key_cert_path
      ∷ codes "--cacert"
      ∷ ca_cert_path
      ∷ codes "ping"
      ∷ [];
  bindings =
      (mem_container_name m ++ codes "-data:/var/lib/redis")
      ∷ (cert_vol_name m ++ codes ":/etc/certs")
      ∷ [];
  caps = [];
  env_vars = [];
  cmd =
      codes "redis-server"
      ∷ codes "--port"
      ∷ codes "0"
      ∷ codes "--tls-port"
      ∷ itoa default_redis_port
      ∷ codes "--cluster-enabled"
      ∷ codes "yes"
      ∷ codes "--cluster-node-timeout"
      ∷ codes "5000"
      ∷ codes "--tls-cert-file"
      ∷ cert_path
      ∷ codes "--tls-key-file"
      ∷ key_cert_path
      ∷ codes "--tls-ca-cert-file"
      ∷ ca_cert_path
      ∷ codes "--tls-auth-clients"
      ∷ codes "yes"
      ∷ codes "--tls-replication"
      ∷ codes "yes"
      ∷ codes "--tls-cluster"
      ∷ codes "yes"
      ∷ codes "--tls-protocols"
      ∷ codes "TLSv1.2 TLSv1.3"
      ∷ codes "--tls-ciphers"
      ∷ codes "HIGH:!aNULL:!MD5"
      ∷ codes "--tls-ciphersuites"
      ∷ codes "TLS_AES_256_GCM_SHA384:TLS_AES_128_GCM_SHA256"
      ∷ codes "--appendonly"
      ∷ codes "yes"
      ∷ [];
  ports = insert (host_port m) default_redis_port [];
}
