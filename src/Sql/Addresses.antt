-- ===== src/Sql/Addresses.antt =====
-- The addresses of the replicas of a shard.
use native.Mathlib.Nat.{add-zero}
use zygote.Common.{
  ℕ, zero, suc, ◌+◌, ◌<◌, ◌≤◌, true, none, some, List, length, get_elem?, Bytes, codes, ℤ, pos,
  Outcome, returned, exited, ◌>>=◌, ◌≡◌, refl, sym, ap, ◌∙◌, arith, inl, inr, Bool-cases,
}
use zygote.Strings.{bytes_eq}
use zygote.Cluster.{node_host, host_network_name}
use zygote.Sql.{
  SqlNode, fill, made, element, at_index, address_of, replication_host, shard_host, with_port,
  on_host, generate_addresses, local_address_value, report_sql_instance_address,
  group_rep_default_port, group_replication_hosts, container_name_of,
}

length-fill : (f : ℕ → Bytes) (k n : ℕ) → length (fill f k n) ≡ n
unfolding fill
length-fill f k zero = refl
length-fill f k (suc n) = ap suc (length-fill f (suc k) n)

get_elem?-fill : (f : ℕ → Bytes) (k n r : ℕ) → r < n → get_elem? (fill f k n) r ≡ some (f (k + r))
unfolding fill
get_elem?-fill f k zero r h = absurd (omega arith)
get_elem?-fill f k (suc n) zero h = rw add-zero
get_elem?-fill f k (suc n) (suc r) h =
    get_elem?-fill f (suc k) n r (omega arith) ∙ ap (λ m. some (f m)) (omega arith)

get_elem?-fill_zero : (f : ℕ → Bytes) (n r : ℕ) → r < n → get_elem? (fill f 0 n) r ≡ some (f r)
get_elem?-fill_zero f n r h = get_elem?-fill f 0 n r h ∙ ap (λ m. some (f m)) (omega arith)

get_elem?-fill_past : (f : ℕ → Bytes) (k n r : ℕ) → n ≤ r → get_elem? (fill f k n) r ≡ none
unfolding fill
get_elem?-fill_past f k zero r h = refl
get_elem?-fill_past f k (suc n) zero h = absurd (omega arith)
get_elem?-fill_past f k (suc n) (suc r) h = get_elem?-fill_past f (suc k) n r (omega arith)

address_of-with_port :
    (s : SqlNode) (port : ℤ) (r : ℕ)
    → address_of s port r ≡ with_port (replication_host s s.shard_index r) port
unfolding address_of replication_host
address_of-with_port s port r = elim (Bool-cases (on_host s)) [
  | inl on ↦ rw (address_of, replication_host, on)
  | inr off ↦ rw (address_of, replication_host, off)
]

-- `hosts[z]` with a port, on a slice of size `n` that is filled by `f`.
pick : (ℕ → Bytes) → ℤ → ℤ → ℤ → Outcome Bytes
pick f n z port = do hosts ← made f n; host ← at_index hosts z; returned (with_port host port)

pick_in :
    (f : ℕ → Bytes) (n r : ℕ) (port : ℤ)
    → r < n
    → pick f (pos n) (pos r) port ≡ returned (with_port (f r) port)
unfolding pick made at_index element
pick_in f n r port h =
    ap (λ o. element o >>= λ host. returned (with_port host port)) (get_elem?-fill_zero f n r h)

pick_past :
    (f : ℕ → Bytes) (n r : ℕ) (port : ℤ)
    → n ≤ r
    → pick f (pos n) (pos r) port ≡ exited (codes "panic: runtime error: index out of range")
unfolding pick made at_index element
pick_past f n r port h =
    ap (λ o. element o >>= λ host. returned (with_port host port)) (get_elem?-fill_past f 0 n r h)

module _ (s : SqlNode) (r n : ℕ) (rep : s.rep_index ≡ pos r) (size : s.shard_size ≡ pos n) where
  picked :
      local_address_value s
      ≡ pick (replication_host s s.shard_index) (pos n) (pos r) group_rep_default_port
  unfolding local_address_value group_replication_hosts pick
  picked =
      let f = replication_host s s.shard_index in
      ap (λ z. pick f s.shard_size z group_rep_default_port) rep
      ∙ ap (λ z. pick f z (pos r) group_rep_default_port) size

  -- If its index is below the size of its shard, a replica's own address for group replication is
  -- the one at its index in the list of seeds, which has one address for each replica of the
  -- shard.
  pub local_address_value-seed :
      r < n
      → (addrs : List Bytes) × (a : Bytes) × (generate_addresses s group_rep_default_port
          ≡ returned addrs)
        × (length addrs ≡ n)
        × (get_elem? addrs r ≡ some a)
        × (local_address_value s ≡ returned a)
  unfolding generate_addresses made
  local_address_value-seed h =
      let f = address_of s group_rep_default_port in
      (
        fill f 0 n,
        f r,
        ap (made f) size,
        length-fill f 0 n,
        get_elem?-fill_zero f n r h,
        picked
            ∙ pick_in _ n r group_rep_default_port h
            ∙ ap returned (sym (address_of-with_port s group_rep_default_port r)),
      )

  -- A replica whose index is not below the size of its shard has no address: the program panics.
  pub local_address_value-panic :
      n ≤ r → local_address_value s ≡ exited (codes "panic: runtime error: index out of range")
  local_address_value-panic h = picked ∙ pick_past _ n r group_rep_default_port h

  report_host :
      (j : ℕ) → s.shard_index ≡ pos j → report_sql_instance_address s ≡ replication_host s (pos j) r
  unfolding report_sql_instance_address replication_host shard_host container_name_of
  report_host j shard = elim (Bool-cases (on_host s)) [
    | inl on ↦ rw (report_sql_instance_address, replication_host, on, shard, rep) (ground arith)
    | inr off ↦ rw (report_sql_instance_address, replication_host, off, shard, rep)
  ]

  -- If its index is below the size of its shard and the number of its shard is not negative, the
  -- address that a replica reports to the other ones is the host of its own address for group
  -- replication.
  pub local_address_value-report :
      (j : ℕ)
      → s.shard_index ≡ pos j
      → r < n
      → local_address_value s
        ≡ returned (with_port (report_sql_instance_address s) group_rep_default_port)
  local_address_value-report j shard h =
      picked
      ∙ pick_in _ n r group_rep_default_port h
      ∙ ap (λ z. returned (with_port (replication_host s z r) group_rep_default_port)) shard
      ∙ ap (λ a. returned (with_port a group_rep_default_port)) (sym (report_host j shard))

-- On the host network the hosts of group replication are those of `utils.NodeHost`.
pub replication_host-node_host :
    (s : SqlNode) (shard : ℤ) (r : ℕ)
    → on_host s ≡ true
    → replication_host s shard r ≡ node_host s.network_name s.domain (pos r) shard
unfolding replication_host node_host on_host shard_host
replication_host-node_host s shard r on =
    let host : bytes_eq s.network_name host_network_name ≡ true = on in rw host
