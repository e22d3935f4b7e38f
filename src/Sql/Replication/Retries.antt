-- ===== src/Sql/Replication/Retries.antt =====
-- The loop of `StartSQLContainers` that joins the group.
use mathlib.Core.Path.{subst}
use zygote.Common.{
  ℕ, zero, suc, ◌*◌, ◌≤◌, Option, none, some, pos, Outcome, returned, exited, ◌>>=◌, bind-returned,
  ◌≡◌, refl, ap, ◌∙◌, arith,
}
use zygote.Errors.{Err}
use zygote.Backoff.{second}
use zygote.Cluster.{Env}
use zygote.Tables.{Driver}
use zygote.Sql.{SqlNode}
use zygote.Sql.Replication.{
  num_retries_join_group_replication, Parts, boot_file_made, joined, router_made, replica_made,
  start_sql_containers, Queries, join_group_replication, after_join, join_rounds,
}

module _ {W : Type 0} (d : Driver W) (q : Queries W) (s : SqlNode) (env : Env) where
  -- `Failures n w u`: joining fails `n` times from `w` on, and `u` is the state after the pause of five
  -- seconds that follows each failure.
  pub data Failures : ℕ → W → W → Type 0 where
    none_yet : {w : W} → Failures 0 w w
    after_failure :
        {n : ℕ} {w u v : W} (e : Err)
        → join_group_replication d q s env w ≡ returned (u, some e)
        → Failures n (q.sleep (pos (5 * second)) u) v
        → Failures (suc n) w v

  -- How a loop of `rounds` rounds ends: at the first success, after fewer failures, or at last
  -- with an error, after as many failures as rounds.
  pub data Ends : ℕ → W → W × Option Err → Type 0 where
    joins :
        {rounds k : ℕ} {w u v : W}
        → suc k ≤ rounds
        → Failures k w u
        → join_group_replication d q s env u ≡ returned (v, none)
        → Ends rounds w (v, none)
    gives_up : {rounds : ℕ} {w v : W} (e : Err) → Failures rounds w v → Ends rounds w (v, some e)

  Ends-suc :
      (left : ℕ) (w u : W) (e : Err) (r : W × Option Err)
      → join_group_replication d q s env w ≡ returned (u, some e)
      → Ends left (q.sleep (pos (5 * second)) u) r
      → Ends (suc left) w r
  Ends-suc left w u e r bad (joins below fails good) =
      joins (omega arith) (after_failure e bad fails) good
  Ends-suc left w u e r bad (gives_up x fails) = gives_up x (after_failure e bad fails)

  after_join-Ends :
      (left : ℕ) (w : W) (o : Outcome (W × Option Err)) (r : W × Option Err)
      → join_group_replication d q s env w ≡ o
      → (o >>= after_join d q s (join_rounds d q s env left)) ≡ returned r
      → ((u : W) (e : Err) → join_rounds d q s env left u (some e) ≡ returned r → Ends left u r)
      → Ends (suc left) w r
  unfolding after_join
  after_join-Ends left w (exited m) r j e later = cc
  after_join-Ends left w (returned (u, none)) r j e later =
      let same : (u, none) ≡ r = cc in
      subst (Ends (suc left) w) same (joins (omega arith) none_yet j)
  after_join-Ends left w (returned (u, some x)) r j e later =
      Ends-suc left w u x r j (later (q.sleep (pos (5 * second)) u) x e)

  join_rounds-Ends :
      (left : ℕ) (w : W) (last : Err) (r : W × Option Err)
      → join_rounds d q s env left w (some last) ≡ returned r
      → Ends left w r
  unfolding join_rounds
  join_rounds-Ends zero w last r e =
      let same : (w, some last) ≡ r = cc in subst (Ends 0 w) same (gives_up last none_yet)
  join_rounds-Ends (suc left) w last r e =
      after_join-Ends left w (join_group_replication d q s env w) r refl e
        (λ u x h. join_rounds-Ends left u x r h)

  -- The loop of five rounds joins the group in the first round in which joining succeeds, after a
  -- pause for each failure, and returns an error only after five failures, each followed by its pause.
  pub join_rounds_lem :
      (w : W) (r : W × Option Err)
      → join_rounds d q s env num_retries_join_group_replication w none ≡ returned r
      → Ends num_retries_join_group_replication w r
  unfolding join_rounds
  join_rounds_lem w r e =
      after_join-Ends 4 w (join_group_replication d q s env w) r refl e
        (λ u x h. join_rounds-Ends 4 u x r h)

  -- A success that comes in time.
  Ends-none :
      (n : ℕ) (w v : W)
      → Ends n w (v, none)
      → (k : ℕ) × (u : W) × (suc k ≤ n)
        × Failures k w u
        × (join_group_replication d q s env u ≡ returned (v, none))
  Ends-none n w v (joins {k = k} {u = u} below fails good) = (k, u, below, fails, good)

  module _ (p : Parts W) where
    boot_file_made-none :
        (r : W × Option Err) (v : W)
        → boot_file_made d q p s env r ≡ returned (v, none)
        → r ≡ (v, none)
    unfolding boot_file_made
    boot_file_made-none (w, none) v h = cc
    boot_file_made-none (w, some e) v h = cc

    joined-none :
        (o : Outcome (W × Option Err)) (v : W)
        → (o >>= joined d q p s env) ≡ returned (v, none)
        → (c : W) × (o ≡ returned (c, none)) × (p.make_bootstrap_file s c ≡ returned (v, none))
    unfolding joined
    joined-none (exited m) v h = cc
    joined-none (returned (c, some e)) v h = cc
    joined-none (returned (c, none)) v h =
        let (r, file, last) =
          bind-returned (p.make_bootstrap_file s c) (boot_file_made d q p s env) (v, none) h in
        (c, refl, file ∙ ap returned (boot_file_made-none r v last))

    -- The state after the router has been made, and the rounds from it.
    router_made-none :
        (r : W × Option Err) (v : W)
        → router_made d q p s env r ≡ returned (v, none)
        → (b : W) × (c : W) × (r ≡ (b, none))
          × (join_rounds d q s env num_retries_join_group_replication b none ≡ returned (c, none))
          × (p.make_bootstrap_file s c ≡ returned (v, none))
    unfolding router_made
    router_made-none (w, some e) v h = cc
    router_made-none (w, none) v h =
        let (c, rounds, file) = joined-none _ v h in (w, c, refl, rounds, file)

    replica_made-none :
        (r : W × Option Err) (v : W)
        → replica_made d q p s env r ≡ returned (v, none)
        → (a : W) × (r ≡ (a, none))
          × ((p.make_sql_router s a >>= router_made d q p s env) ≡ returned (v, none))
    unfolding replica_made
    replica_made-none (w, some e) v h = cc
    replica_made-none (w, none) v h = (w, refl, h)

    -- If `StartSQLContainers` returns without an error, then the replica's container and the router's
    -- have been made, joining the group has succeeded after fewer than five failures, and then the
    -- bootstrap file has been made; in this order.
    pub start_sql_containers-none :
        (w v : W)
        → start_sql_containers d q p s env w ≡ returned (v, none)
        → (a : W) × (b : W) × (c : W) × (u : W) × (k : ℕ) × (p.make_sql_replica s w
            ≡ returned (a, none))
          × (p.make_sql_router s a ≡ returned (b, none))
          × (suc k ≤ num_retries_join_group_replication)
          × Failures k b u
          × (join_group_replication d q s env u ≡ returned (c, none))
          × (p.make_bootstrap_file s c ≡ returned (v, none))
    unfolding start_sql_containers
    start_sql_containers-none w v h =
        let (x, first, h1) =
          bind-returned (p.make_sql_replica s w) (replica_made d q p s env) (v, none) h in
        let (a, replica, rest) = replica_made-none x v h1 in
        let (y, second_part, h2) =
          bind-returned (p.make_sql_router s a) (router_made d q p s env) (v, none) rest in
        let (b, c, router, rounds, file) = router_made-none y v h2 in
        let (k, u, below, fails, good) =
          Ends-none num_retries_join_group_replication b c (join_rounds_lem b (c, none) rounds) in
        (
          a,
          b,
          c,
          u,
          k,
          first ∙ ap returned replica,
          second_part ∙ ap returned router,
          below,
          fails,
          good,
          file,
        )
