-- ===== src/Sql.antt =====
-- lib/cluster/db/db.go: the nodes of the SQL cluster, their addresses and their containers' settings.
pub mod Addresses
pub mod Containers
pub mod Replica
pub mod Migrations
pub mod Replication
use zygote.Common.{
  ℕ, zero, suc, Bool, true, false, Option, none, some, List, [], ◌∷◌, ◌++◌, get_elem?,
  if◌then◌else◌, Bytes, codes, ℤ, pos, negsuc, ltb_ℤ, eqb_ℤ, Outcome, returned, exited, ◌>>=◌,
}
use zygote.Strings.{bytes_eq, join, letter_of}
use zygote.Strconv.{itoa}
use zygote.Cluster.{node_port, node_container, host_network_name, or_default}

pub record SqlNode : Type 0 where
  pub tenant : Bytes
  pub domain : Bytes
  pub database_name : Bytes
  pub user : Bytes
  pub password : Bytes
  pub root_password : Bytes
  pub migration_dir : Bytes
  pub network_name : Bytes
  pub group_name : Bytes
  pub num_shards : ℤ
  pub shard_size : ℤ
  pub shard_index : ℤ
  pub rep_index : ℤ

abbrev pub router_port_num_read : ℤ
router_port_num_read = pos 6446

abbrev pub router_port_num_write : ℤ
router_port_num_write = pos 6447

abbrev pub mysql_public_default_port : ℤ
mysql_public_default_port = pos 3306

abbrev pub group_rep_default_port : ℤ
group_rep_default_port = pos 33061

abbrev pub localhost_ip : Bytes
localhost_ip = codes "127.0.0.1"

-- The arguments are `utils.RepoFullName()` and `container.AppNetworkName()`.
unfoldable pub new_sql_node : Bytes → Bytes → SqlNode
new_sql_node repo_full_name app_network_name = record {
  tenant = codes "zygote";
  domain = codes "zygote.run";
  database_name = repo_full_name;
  user = codes "admin";
  password = codes "password";
  root_password = codes "root1234";
  migration_dir = [];
  network_name = app_network_name;
  group_name = codes "aaaaaaaa-bbbb-cccc-dddd-eeeeeeeeeeee";
  num_shards = pos 1;
  shard_size = pos 3;
  shard_index = pos 0;
  rep_index = pos 0;
}

unfoldable pub on_host : SqlNode → Bool
on_host s = bytes_eq s.network_name host_network_name

unfoldable pub map_port : SqlNode → ℤ → Outcome ℤ
map_port s target = node_port s.network_name target s.rep_index s.shard_index

unfoldable pub container_name_of : SqlNode → Bytes → Bytes
container_name_of s name = node_container name s.tenant s.rep_index s.shard_index

unfoldable pub with_port : Bytes → ℤ → Bytes
with_port host port = host ++ b':' ∷ itoa port

-- A host of a shard on the host network.
unfoldable pub shard_host : Bytes → ℤ → ℤ → Bytes
shard_host domain r shard =
    if ltb_ℤ (pos 0) shard
    then codes "shard-" ++ letter_of r ++ b'-' ∷ (itoa shard ++ b'.' ∷ domain)
    else codes "shard-" ++ letter_of r ++ b'.' ∷ domain

-- What the loop in `generateAddresses` stores at an index.
unfoldable pub address_of : SqlNode → ℤ → ℕ → Bytes
unfolding on_host with_port shard_host
address_of s port r =
    if on_host s
    then with_port (shard_host s.domain (pos r) s.shard_index) port
    else with_port (node_container (codes "sql") s.tenant (pos r) s.shard_index) port

-- What the loop in `GroupReplicationHosts` stores at an index.
unfoldable pub replication_host : SqlNode → ℤ → ℕ → Bytes
unfolding on_host shard_host
replication_host s shard r =
    if on_host s
    then shard_host s.domain (pos r) shard
    else node_container (codes "sql") s.tenant (pos r) s.shard_index

-- A slice of `n` texts filled by a loop over its indices, from `k` on.
unfoldable pub fill : (ℕ → Bytes) → ℕ → ℕ → List Bytes
fill f k zero = []
fill f k (suc n) = f k ∷ fill f (suc k) n

-- `make` panics on a negative size; the `nil` slice for size 0 is empty.
unfoldable pub made : (ℕ → Bytes) → ℤ → Outcome (List Bytes)
unfolding fill
made f (pos n) = returned (fill f 0 n)
made f (negsuc n) = exited (codes "panic: runtime error: makeslice: len out of range")

unfoldable pub generate_addresses : SqlNode → ℤ → Outcome (List Bytes)
unfolding made
generate_addresses s port = made (address_of s port) s.shard_size

unfoldable pub endpoints : SqlNode → Outcome (List Bytes)
unfolding generate_addresses
endpoints s = generate_addresses s mysql_public_default_port

unfoldable pub group_replication_hosts : SqlNode → ℤ → Outcome (List Bytes)
unfolding made
group_replication_hosts s shard = made (replication_host s shard) s.shard_size

unfoldable pub report_sql_instance_address : SqlNode → Bytes
unfolding on_host container_name_of
report_sql_instance_address s =
    if on_host s
    then (if eqb_ℤ s.shard_index (pos 0)
        then codes "shard-" ++ letter_of s.rep_index ++ b'.' ∷ s.domain
        else codes "shard-"
          ++ letter_of s.rep_index
          ++ b'-' ∷ (itoa s.shard_index ++ b'.' ∷ s.domain))
    else container_name_of s (codes "sql")

unfoldable pub group_ip_allow_list_value : SqlNode → Outcome Bytes
unfolding group_replication_hosts
group_ip_allow_list_value s = do
  hosts ← group_replication_hosts s s.shard_index
  returned (codes "172.18.0.0/16,127.0.0.1," ++ join hosts (codes ","))

unfoldable pub group_seeds_value : SqlNode → Outcome Bytes
unfolding generate_addresses
group_seeds_value s = do
  addrs ← generate_addresses s group_rep_default_port
  returned (join addrs (codes ","))

unfoldable pub element : Option Bytes → Outcome Bytes
element none = exited (codes "panic: runtime error: index out of range")
element (some host) = returned host

-- `hosts[i]`, which panics outside the slice.
unfoldable pub at_index : List Bytes → ℤ → Outcome Bytes
unfolding element
at_index hosts (pos i) = element (get_elem? hosts i)
at_index hosts (negsuc i) = element none

unfoldable pub local_address_value : SqlNode → Outcome Bytes
unfolding group_replication_hosts at_index with_port
local_address_value s = do
  hosts ← group_replication_hosts s s.shard_index
  host ← at_index hosts s.rep_index
  returned (with_port host group_rep_default_port)
