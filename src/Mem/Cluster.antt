-- ===== src/Mem/Cluster.antt =====
-- The command that makes the Redis cluster names every node once, and `Init` runs it on one node.
use native.Mathlib.Nat.{mod-eq_of_lt, suc-mul}
use zygote.Common.{
  ℕ, zero, suc, ◌+◌, ◌*◌, ◌≤◌, ◌<◌, ◌%◌, true, false, not, ◌||◌, Option, none, some, List, [], ◌∷◌,
  ◌++◌, map, length, length-append, length-map, length-range_from, range_from, append_assoc,
  append-nil, if◌then◌else◌, Bytes, codes, ℤ, pos, negsuc, pos_part, eqb_ℤ, wrap64, ◌+ℤ◌, returned,
  ◌≡◌, refl, sym, ap, ◌∙◌, arith, Bool-cases, inl, inr,
}
use zygote.Strings.{bytes_eq}
use zygote.Strconv.{itoa}
use zygote.Errors.{Err}
use zygote.Backoff.{retry}
use zygote.Backoff.Sound.{retry-Succeeds}
use zygote.Cluster.{node_container, node_host, host_network_name}
use zygote.Mem.{MemNode}
use zygote.Mem.Create.{
  on_port, address_at, node_address, shards_from, reps_from, base_command,
  create_redis_cluster_command, init_backoff, init, init_with, init_done,
}

-- The address of a node: its host on the host network, its container off it.
abbrev pub address : MemNode → ℕ → ℕ → Bytes
address m rep shard = on_port (
    if bytes_eq m.network_name host_network_name
    then node_host m.network_name m.domain (pos rep) (pos shard)
    else node_container (codes "mem") m.tenant (pos rep) (pos shard))

-- The nodes of all shards of a replica, replica by replica.
abbrev pub grid : MemNode → ℕ → ℕ → ℕ → List Bytes
grid m n rep zero = []
grid m n rep (suc left) = map (address m rep) (range_from 0 n) ++ grid m n (suc rep) left

length-grid : (m : MemNode) (n rep left : ℕ) → length (grid m n rep left) ≡ left * n
length-grid m n rep zero = omega arith
length-grid m n rep (suc left) =
    length-append (map (address m rep) (range_from 0 n)) (grid m n (suc rep) left)
    ∙ omega (
      arith,
      length-map (address m rep) (range_from 0 n),
      length-range_from 0 n,
      length-grid m n (suc rep) left,
      suc-mul left n,
    )

address_at_lem : (m : MemNode) (rep shard : ℕ) → address_at m rep shard shard ≡ address m rep shard
unfolding address_at node_host
address_at_lem m rep shard = elim (Bool-cases (bytes_eq m.network_name host_network_name)) [
  | inr off ↦ rw off (ground arith)
  | inl on ↦ rw on (ground arith)
]

node_address_lem :
    (m : MemNode) (n rep shard : ℕ)
    → m.num_shards ≡ pos n
    → shard < n
    → node_address m rep shard ≡ address m rep shard
unfolding node_address
node_address_lem m n rep shard size h =
    ap (λ z. address_at m rep shard (shard % pos_part z)) size
    ∙ ap (address_at m rep shard) (mod-eq_of_lt h)
    ∙ address_at_lem m rep shard

module _ (m : MemNode) (n : ℕ) (size : m.num_shards ≡ pos n) where
  shards_from_lem :
      (rep shard left : ℕ) (cmd : List Bytes)
      → shard + left ≤ n
      → shards_from m rep shard left cmd ≡ cmd ++ map (address m rep) (range_from shard left)
  unfolding shards_from
  shards_from_lem rep shard zero cmd h = sym (append-nil cmd)
  shards_from_lem rep shard (suc left) cmd h =
      shards_from_lem rep (suc shard) left (cmd ++ node_address m rep shard ∷ []) (omega arith)
      ∙ ap (λ a. (cmd ++ a ∷ []) ++ map (address m rep) (range_from (suc shard) left))
          (node_address_lem m n rep shard size (omega arith))
      ∙ append_assoc cmd _ _

  reps_from_lem :
      (rep left : ℕ) (cmd : List Bytes) → reps_from m rep left cmd ≡ cmd ++ grid m n rep left
  unfolding reps_from
  reps_from_lem rep zero cmd = sym (append-nil cmd)
  reps_from_lem rep (suc left) cmd =
      let row = map (address m rep) (range_from 0 n) in
      ap (λ z. reps_from m (suc rep) left (shards_from m rep 0 (pos_part z) cmd)) size
      ∙ ap (reps_from m (suc rep) left) (shards_from_lem rep 0 n cmd (omega arith))
      ∙ reps_from_lem (suc rep) left (cmd ++ row)
      ∙ append_assoc cmd row (grid m n (suc rep) left)

  -- With at least one replica for each shard, the command names each node of the cluster once: the
  -- first replicas of all shards, then the second ones, and so on, as many as replicas times
  -- shards, between the fixed words and the flags.
  pub create_redis_cluster_command-grid :
      (k : ℕ)
      → m.shard_size ≡ pos (suc k)
      → (nodes : List Bytes) × (create_redis_cluster_command m
          ≡ (base_command ++ nodes)
            ++ codes "--cluster-replicas"
              ∷ itoa (wrap64 (pos (suc k) +ℤ negsuc 0))
              ∷ codes "--cluster-yes"
              ∷ [])
        × (nodes ≡ grid m n 0 (suc k))
        × (length nodes ≡ suc k * n)
  unfolding create_redis_cluster_command
  create_redis_cluster_command-grid k reps = (
    grid m n 0 (suc k),
    ap
          (λ z.
            reps_from m 0 (pos_part z) base_command
            ++ codes "--cluster-replicas"
              ∷ itoa (wrap64 (z +ℤ negsuc 0))
              ∷ codes "--cluster-yes"
              ∷ [])
          reps
        ∙ ap
            (λ c.
              c
              ++ codes "--cluster-replicas"
                ∷ itoa (wrap64 (pos (suc k) +ℤ negsuc 0))
                ∷ codes "--cluster-yes"
                ∷ [])
            (reps_from_lem 0 (suc k) base_command),
    refl,
    length-grid m n 0 (suc k),
  )

module _ {W : Type 0} (client : W → W × Option Err) (wait : ℤ → W → W × Option Err)
    (spawn : List Bytes → W → W × Option Err) (m : MemNode) where
  -- `Init` does nothing on a node that is not the first replica of the first shard.
  pub init-other :
      (w : W)
      → (not (eqb_ℤ m.rep_index (pos 0)) || not (eqb_ℤ m.shard_index (pos 0))) ≡ true
      → init client wait spawn m w ≡ returned w
  unfolding init
  init-other w other = rw other

  init_done_cases :
      (r : W × Option Err) (v : W) → init_done client wait spawn r ≡ returned v → r ≡ (v, none)
  unfolding init_done
  init_done_cases (w, none) v h = cc
  init_done_cases (w, some e) v h = cc

  init_with-spawn :
      (r : W × Option Err) (v : W)
      → init_with client wait spawn m r ≡ returned v
      → (u : W) × (spawn (create_redis_cluster_command m) u ≡ (v, none))
  unfolding init_with
  init_with-spawn (w, some e) v h = cc
  init_with-spawn (w, none) v h =
      let command = create_redis_cluster_command m in
      let (k, u, below, reached, done) =
        retry-Succeeds init_backoff wait (spawn command) w v
          (init_done_cases (retry init_backoff wait (spawn command) w) v h) in
      (u, done)

  -- If `Init` returns on the first replica of the first shard, then one of its runs of the command has
  -- succeeded, and nothing was done after it.
  pub init-spawn :
      (w v : W)
      → (not (eqb_ℤ m.rep_index (pos 0)) || not (eqb_ℤ m.shard_index (pos 0))) ≡ false
      → init client wait spawn m w ≡ returned v
      → (u : W) × (spawn (create_redis_cluster_command m) u ≡ (v, none))
  unfolding init
  init-spawn w v first h = init_with-spawn (client w) v (rw first at h)
