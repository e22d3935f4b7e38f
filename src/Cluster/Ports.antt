-- ===== src/Cluster/Ports.antt =====
-- The ports that `NodePort` gives to the nodes of a cluster off the host network.
use zygote.Common.{
  codes, true, ℕ, ◌+◌, ◌*◌, ◌<◌, ◌^◌, ℤ, pos, negsuc, Bytes, returned, false, pos_part, ap, sym,
  ◌∙◌, ◌≡◌, refl, arith,
}
use zygote.Strings.{bytes_eq}
use zygote.Cluster.{node_host, node_port, host_network_name}

-- A port is only given to a replica and a shard that are not negative, the replica below nine.
node_port-returned :
    (network : Bytes) (target r s p : ℤ)
    → bytes_eq network host_network_name ≡ false
    → node_port network target r s ≡ returned p
    → (i : ℕ) × (j : ℕ) × (r ≡ pos i) × (s ≡ pos j) × (i < 9)
unfolding node_port
node_port-returned network target (pos i) (pos j) p off e = (i, j, refl, refl, ground arith)
node_port-returned network target (negsuc i) s p off e = ground arith
node_port-returned network target r (negsuc j) p off e = ground arith

node_port_value :
    (network : Bytes) (target i j : ℕ) (p : ℤ)
    → bytes_eq network host_network_name ≡ false
    → target < 2 ^ 16
    → j < 2 ^ 32
    → node_port network (pos target) (pos i) (pos j) ≡ returned p
    → p ≡ pos (target + 10 * i + 100 * j)
unfolding node_port
node_port_value network target i j p off fits small e = ground arith

-- The services of a node, by the port inside their container.
pub data Service : Type 0 where
  mysql_public group_replication router_read router_write redis : Service

-- db.go: mysqlPublicDefaultPort, groupRepDefaultPort, routerPortNumRead, routerPortNumWrite;
-- mem/memory.go: defaultRedisPort.
unfoldable pub target_port : Service → ℕ
target_port mysql_public = 3306
target_port group_replication = 33061
target_port router_read = 6446
target_port router_write = 6447
target_port redis = 6373

target_port-lt : (a : Service) → target_port a < 2 ^ 16
unfolding target_port
target_port-lt a = ground arith

distinct :
    (a b : Service) (i j k l : ℕ)
    → i < 9
    → k < 9
    → j < 31
    → l < 31
    → target_port a + 10 * i + 100 * j ≡ target_port b + 10 * k + 100 * l
    → (a ≡ b) × (i ≡ k) × (j ≡ l)
unfolding target_port
distinct mysql_public b i j k l hi hk hj hl e = ground arith
distinct group_replication b i j k l hi hk hj hl e = ground arith
distinct router_read b i j k l hi hk hj hl e = ground arith
distinct router_write b i j k l hi hk hj hl e = ground arith
distinct redis b i j k l hi hk hj hl e = ground arith

-- Off the host network, two services of a cluster of at most thirty-one shards that are given the
-- same port are the same service of the same node.
pub node_port_injective :
    (network : Bytes) (a b : Service) (r s r' s' p : ℤ)
    → bytes_eq network host_network_name ≡ false
    → pos_part s < 31
    → pos_part s' < 31
    → node_port network (pos (target_port a)) r s ≡ returned p
    → node_port network (pos (target_port b)) r' s' ≡ returned p
    → (a ≡ b) × (r ≡ r') × (s ≡ s')
node_port_injective network a b r s r' s' p off small small' e e' =
    let (i, j, ri, sj, hi) = node_port-returned network _ r s p off e in
    let (k, l, rk, sl, hk) = node_port-returned network _ r' s' p off e' in
    let hj : j < 31 = rw sj at small in
    let hl : l < 31 = rw sl at small' in
    let v =
      node_port_value network (target_port a) i j p off (target_port-lt a) (omega arith)
        (rw (← ri, ← sj) e) in
    let w =
      node_port_value network (target_port b) k l p off (target_port-lt b) (omega arith)
        (rw (← rk, ← sl) e') in
    let (same, ik, jl) = distinct a b i j k l hi hk hj hl (ground (arith, v, w)) in
    (same, ri ∙ ap pos ik ∙ sym rk, sj ∙ ap pos jl ∙ sym sl)

-- On the host network every service keeps its port.
pub node_port_on_host :
    (network : Bytes) (target r s : ℤ)
    → bytes_eq network host_network_name ≡ true
    → node_port network target r s ≡ returned target
unfolding node_port
node_port_on_host network target r s on = rw on

pub node_port_first_replica :
    (network : Bytes) (target i : ℕ)
    → bytes_eq network host_network_name ≡ false
    → target < 2 ^ 16
    → i < 2 ^ 32
    → node_port network (pos target) (pos 0) (pos i) ≡ returned (pos (target + 100 * i))
unfolding node_port
node_port_first_replica network target i off fits small = ground arith

pub node_host_off :
    (network domain : Bytes) (r s : ℤ)
    → bytes_eq network host_network_name ≡ false
    → node_host network domain r s ≡ codes "127.0.0.1"
unfolding node_host
node_host_off network domain r s off = rw off
