-- ===== src/Tables/Shards/Laws.antt =====
-- What connecting to all shards promises, in whatever order the goroutines run.
use mathlib.Core.List.{concat-ne-nil, Memᴰ}
use mathlib.Core.Path.{subst, subst₂}
use zygote.Common.{
  false, ◌≡◌, refl, sym, ap, ◌∙◌, Option, none, some, List, [], ◌∷◌, Bytes, ℤ, inl, inr, arith,
  Outcome, returned, exited, ◌>>=◌, Bool-cases, eqb_ℤ, eqb_ℤ_iff, Result, ok, err,
}
use zygote.Common.IntMap.{IntMap, lookup, insert, lookup-insert, eqb_ℤ_refl}
use zygote.Errors.{Err}
use zygote.Tables.{
  ClientConfig, add_config, Driver, Handle, ShardEndpoint, MultiDbConnector, State, sql_endpoints,
}
use zygote.Tables.Connect.{ConnectionType, read_conn, write_conn, other_conn, conns, connect, Local}
use zygote.Tables.Connect.Laws.{IsMade, Frame, connect-Frame, connect-lookup}
use zygote.Tables.Shards.{
  shard_config, Gathered, verdict_of, connect_endpoints, gather, with_config, task, run_tasks,
  verdict, connect_all_shards,
}

-- A shard's handle is in the map that is returned, and it is the one that the connector holds.
abbrev pub Held : {W : Type 0} → ConnectionType → State W → IntMap (Option Handle) → ℤ → Type 0
Held t s dbs j =
    (h : Handle) × (lookup j dbs ≡ some (some h)) × (lookup j (conns t s.connector) ≡ some h)

conns-add_config :
    (t : ConnectionType) (i : ℤ) (c : ClientConfig) (m : MultiDbConnector)
    → conns t (add_config i c m) ≡ conns t m
unfolding conns add_config
conns-add_config read_conn i c m = refl
conns-add_config write_conn i c m = refl
conns-add_config (other_conn name) i c m = refl

module _ {W : Type 0} (d : Driver W) (t : ConnectionType) (host : Bytes) (made : IsMade t) where
  conns-with_config :
      (e : ShardEndpoint) (s : State W)
      → conns t (with_config d t host e s).connector ≡ conns t s.connector
  unfolding with_config
  conns-with_config e s = conns-add_config t e.index (shard_config t s.connector e) s.connector

  -- A new handle for one shard leaves what is held for the others.
  Held-other :
      (i j : ℤ) (s s' : State W) (dbs : IntMap (Option Handle)) (db : Option Handle)
      → eqb_ℤ i j ≡ false
      → Frame i t s.connector s'.connector
      → Held t s dbs j
      → Held t s' (insert i db dbs) j
  Held-other i j s s' dbs db other frame (h, kept, stored) = (
    h,
    rw (lookup-insert, other) kept,
    frame.other_shards j (λ e. ground (arith, e, other, eqb_ℤ_iff i j)) ∙ stored,
  )

  -- What a later state keeps of an earlier one.
  abbrev pub Keeps : Gathered W → Gathered W → Type 0
  Keeps g g' =
      ((j : ℤ) → Held t g.state g.dbs j → Held t g'.state g'.dbs j) × (g.connect_errors ≡ [])

  -- The step of a goroutine that adds no error.
  gather-Held :
      (e : ShardEndpoint) (g : Gathered W) (r : Local d e.index t × Option Err)
      → connect d e.index t host (with_config d t host e g.state) ≡ returned r
      → (gather d t host e g r).connect_errors ≡ []
      → let g' = gather d t host e g r in Held t g'.state g'.dbs e.index × Keeps g g'
  unfolding gather
  gather-Held e g ((s, db), some x) c n = absurd (concat-ne-nil _ g.connect_errors n)
  gather-Held e g ((s, db), none) c n =
      let before = with_config d t host e g.state in
      let (h, here, stored) = connect-lookup d e.index t host before s db made c in
      let frame = connect-Frame d e.index t host before s db none c in
      let now : Held t s (insert e.index db g.dbs) e.index = (
        h,
        ap (λ o. lookup e.index (insert e.index o g.dbs)) here ∙ rw (lookup-insert, eqb_ℤ_refl),
        stored,
      ) in
      let others : (j : ℤ) → Held t g.state g.dbs j → Held t s (insert e.index db g.dbs) j =
        λ j held. elim (Bool-cases (eqb_ℤ e.index j)) [
          | inl same ↦ subst (Held t s (insert e.index db g.dbs)) ((eqb_ℤ_iff e.index j).0 same) now
          | inr other ↦
              Held-other e.index j before s g.dbs db other frame
                (held.0, held.1, ap (lookup j) (conns-with_config e g.state) ∙ held.2)
        ] in
      (now, (others, n))

  task-cases :
      (e : ShardEndpoint) (g g' : Gathered W) (r : Outcome (Local d e.index t × Option Err))
      → (r >>= λ x. returned (gather d t host e g x)) ≡ returned g'
      → (x : Local d e.index t × Option Err) × (r ≡ returned x) × (g' ≡ gather d t host e g x)
  task-cases e g g' (returned x) h = (x, refl, cc)
  task-cases e g g' (exited m) h = cc

  task-Held :
      (e : ShardEndpoint) (g g' : Gathered W)
      → task d t host e g ≡ returned g'
      → g'.connect_errors ≡ []
      → Held t g'.state g'.dbs e.index × Keeps g g'
  unfolding task
  task-Held e g g' h n =
      let (x, c, same) =
        task-cases e g g' (connect d e.index t host (with_config d t host e g.state)) h in
      subst (λ z. Held t z.state z.dbs e.index × Keeps g z) (sym same)
        (gather-Held e g x c (ap (λ z. z.connect_errors) (sym same) ∙ n))

  run_step :
      (e : ShardEndpoint) (es : List ShardEndpoint) (g' : Gathered W) (o : Outcome (Gathered W))
      → (o >>= run_tasks d t host es) ≡ returned g'
      → (g : Gathered W) × (o ≡ returned g) × (run_tasks d t host es g ≡ returned g')
  run_step e es g' (returned g) h = (g, refl, h)
  run_step e es g' (exited m) h = cc

  run_tasks-Held :
      (es : List ShardEndpoint) (g g' : Gathered W)
      → run_tasks d t host es g ≡ returned g'
      → g'.connect_errors ≡ []
      → ((e : ShardEndpoint) → Memᴰ e es → Held t g'.state g'.dbs e.index) × Keeps g g'
  unfolding run_tasks
  run_tasks-Held [] g g' h n =
      let same : g ≡ g' = cc in
      subst (λ z. ((e : ShardEndpoint) → Memᴰ e [] → Held t z.state z.dbs e.index) × Keeps g z) same
        (λ e m. elim m [ ], (λ j held. held, ap (λ z. z.connect_errors) same ∙ n))
  run_tasks-Held (e ∷ es) g g' h n =
      let (u, first, rest) = run_step e es g' (task d t host e g) h in
      let (all, (keep, none_left)) = run_tasks-Held es u g' rest n in
      let (now, (kept, none_before)) = task-Held e g u first none_left in
      (
        λ x m. elim m [
          | Memᴰ.head same ↦
              subst (λ y. Held t g'.state g'.dbs y.index) (sym same) (keep e.index now)
          | Memᴰ.tail later ↦ all x later
        ],
        (λ j held. keep j (kept j held), none_before),
      )

  verdict_of-none :
      (g : Gathered W) (errs : List Err) (s' : State W) (dbs : IntMap (Option Handle))
      → verdict_of d t host g errs ≡ (s', dbs, none)
      → (errs ≡ []) × (g.state ≡ s') × (g.dbs ≡ dbs)
  unfolding verdict_of
  verdict_of-none g [] s' dbs h = (refl, ap (λ r. r.0) h, ap (λ r. r.1) h)
  verdict_of-none g (x ∷ xs) s' dbs h = cc

  connect_endpoints-Held :
      (order : List ShardEndpoint → List ShardEndpoint) (s s' : State W)
      (dbs : IntMap (Option Handle)) (es : List ShardEndpoint) (o : Outcome (Gathered W))
      → run_tasks d t host (order es) (record { state = s; dbs = []; connect_errors = [] }) ≡ o
      → (o >>= λ g. returned (verdict d t host g)) ≡ returned (s', dbs, none)
      → (e : ShardEndpoint) → Memᴰ e (order es)
      → Held t s' dbs e.index
  unfolding verdict
  connect_endpoints-Held order s s' dbs es (exited m) run h e mem = cc
  connect_endpoints-Held order s s' dbs es (returned g) run h e mem =
      let (n, same, same_dbs) = verdict_of-none g g.connect_errors s' dbs cc in
      let (all, _) =
        run_tasks-Held (order es) (record { state = s; dbs = []; connect_errors = [] }) g run n in
      subst₂ (λ u v. Held t u v e.index) same same_dbs (all e mem)

  -- The endpoints that were calculated, if no error is returned.
  endpoints_of :
      (order : List ShardEndpoint → List ShardEndpoint) (s s' : State W)
      (dbs : IntMap (Option Handle)) (o : Outcome (Result Err (List ShardEndpoint)))
      → (o >>= connect_endpoints d t host order s) ≡ returned (s', dbs, none)
      → (es : List ShardEndpoint) × (o ≡ returned (ok es))
        × (connect_endpoints d t host order s (ok es) ≡ returned (s', dbs, none))
  unfolding connect_endpoints
  endpoints_of order s s' dbs (exited m) h = cc
  endpoints_of order s s' dbs (returned (err e)) h = cc
  endpoints_of order s s' dbs (returned (ok es)) h = (es, refl, h)

  -- For reading and for writing, and for every order of the goroutines that leaves none out: if
  -- connecting to all shards returns no error, then for each endpoint the map that is returned
  -- holds a handle, and it is the handle that the connector holds for the shard.
  pub connect_all_shards-Held :
      (order : List ShardEndpoint → List ShardEndpoint)
      (complete : (es : List ShardEndpoint) (e : ShardEndpoint) → Memᴰ e es → Memᴰ e (order es))
      (s s' : State W) (dbs : IntMap (Option Handle))
      → connect_all_shards d t host order s ≡ returned (s', dbs, none)
      → let m = s.connector in
        (es : List ShardEndpoint) × (sql_endpoints m.network m.domain m.num_shards
            m.target_read_port m.target_write_port
          ≡ returned (ok es))
        × ((e : ShardEndpoint) → Memᴰ e es → Held t s' dbs e.index)
  unfolding connect_all_shards connect_endpoints
  connect_all_shards-Held order complete s s' dbs h =
      let m = s.connector in
      let (es, calculated, go) =
        endpoints_of order s s' dbs
          (sql_endpoints m.network m.domain m.num_shards m.target_read_port m.target_write_port)
          h in
      (
        es,
        calculated,
        λ e mem. connect_endpoints-Held order s s' dbs es _ refl go e (complete es e mem),
      )
