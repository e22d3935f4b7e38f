-- ===== src/Tables/Pools/Refines.antt =====
-- The operations of a connector refine the steps on its abstract state.
use mathlib.Core.Path.{fun_ext, subst}
use zygote.Common.{
  Option, none, some, List, [], ◌∷◌, ◌≡◌, refl, sym, ap, ◌∙◌, inl, inr, arith, Bytes, ℤ, eqb_ℤ_iff,
  returned, bind-returned, Option-cases,
}
use zygote.Common.IntMap.{lookup}
use zygote.Errors.{Err}
use zygote.Backoff.Final.{Final, retry-Final}
use zygote.Tables.{Driver, Handle, MultiDbConnector, State}
use zygote.Tables.Connect.{
  read_conn, write_conn, conns, store, connect, attempt, local_wait, connect_backoff, Local,
}
use zygote.Tables.Connect.Attempt.{Post, attempt-Post}
use zygote.Tables.Connect.Laws.{retried, connect_cases, lookup-store, conns-store}
use zygote.Tables.Close.{
  get_connection, get_read_connection, get_write_connection, close, close_all,
}
use zygote.Tables.Close.Laws.{close-lookup, close_all_empties}
use zygote.Tables.Pools.{
  Purpose, reading, writing, type_for, Op, looking, connecting, closing, closing_all, Reply, Pools,
  put, without, Step, found, missing, granted, refused, closed, cleared, Steps, at_rest, after_step,
  view, looked, exec_op, exec_ops,
}

view-store :
    (p q : Purpose) (i j : ℤ) (h : Handle) (m : MultiDbConnector)
    → view (store (type_for p) i h m) q j ≡ put p i h (view m) q j
unfolding view conns
view-store reading reading i j h m = lookup-store read_conn i j h m (inl refl)
view-store reading writing i j h m =
    ap (lookup j) (conns-store read_conn write_conn i h m (λ e. cc))
view-store writing reading i j h m =
    ap (lookup j) (conns-store write_conn read_conn i h m (λ e. cc))
view-store writing writing i j h m = lookup-store write_conn i j h m (inr refl)

put-same :
    (p q : Purpose) (i j : ℤ) (h : Handle) (v : Pools) → v p i ≡ some h → put p i h v q j ≡ v q j
put-same reading reading i j h v e = ground (arith, eqb_ℤ_iff i j)
put-same writing writing i j h v e = ground (arith, eqb_ℤ_iff i j)
put-same reading writing i j h v e = refl
put-same writing reading i j h v e = refl

view-conns :
    (p : Purpose) (i : ℤ) (m : MultiDbConnector) → view m p i ≡ lookup i (conns (type_for p) m)
unfolding view conns
view-conns reading i m = refl
view-conns writing i m = refl

get-Step :
    (p : Purpose) (i : ℤ) (m : MultiDbConnector)
    → Step (looking p i) (looked (get_connection (type_for p) i m)) (view m) (view m)
unfolding get_connection
get-Step p i m = elim (Option-cases (lookup i (conns (type_for p) m))) [
  | inl e ↦ rw (get_connection, e) (missing (view-conns p i m ∙ e))
  | inr (h, e) ↦ rw (get_connection, e) (found (view-conns p i m ∙ e))
]

module _ {W : Type 0} (d : Driver W) (host : Bytes) where
  module _ (p : Purpose) (i : ℤ) where
    -- Connectors that a failed `connect` leaves, and those that a successful one leaves.
    abbrev Kept : MultiDbConnector → Local d i (type_for p) → Type 0
    Kept m l = l.0.connector ≡ m

    abbrev Made : MultiDbConnector → Local d i (type_for p) → Type 0
    Made m (s, db) = Post d i (type_for p) m ((s, db), none)

    Post-Final :
        (m : MultiDbConnector) (r : Local d i (type_for p) × Option Err)
        → Post d i (type_for p) m r
        → Final (Kept m) (Made m) r
    Post-Final m ((s, db), none) h = h
    Post-Final m ((s, db), some e) h = h

    attempt-Final :
        (m : MultiDbConnector) (l : Local d i (type_for p))
        → Kept m l
        → Final (Kept m) (Made m) (attempt d i (type_for p) l)
    attempt-Final m l e =
        subst (λ m. Final (Kept m) (Made m) (attempt d i (type_for p) l)) e
          (Post-Final l.0.connector (attempt d i (type_for p) l) (attempt-Post d i (type_for p) l))

    retried-Final :
        (s : State W) → Final (Kept s.connector) (Made s.connector) (retried d i (type_for p) s)
    unfolding retried local_wait
    retried-Final s =
        retry-Final (connect_backoff d i (type_for p)) (local_wait d i (type_for p))
          (attempt d i (type_for p)) (Kept s.connector) (Made s.connector)
          (attempt-Final s.connector) (λ delay l e. e) (s, none) refl

    Final-Step :
        (m : MultiDbConnector) (r : Local d i (type_for p) × Option Err)
        → Final (Kept m) (Made m) r
        → Step (connecting p i) (r.0.1, r.1) (view m) (view r.0.0.connector)
    Final-Step m ((s, db), some e) same =
        subst (λ u. Step (connecting p i) (db, some e) (view m) (view u)) (sym same) refused
    Final-Step m ((s, db), none) (h, here, inl (same, there)) =
        let kept : put p i h (view m) ≡ view m =
          fun_ext (λ q. fun_ext (λ j. put-same p q i j h (view m) (view-conns p i m ∙ there))) in
        let step : Step (connecting p i) (some h, none) (view m) (view m) =
          subst (Step (connecting p i) (some h, none) (view m)) kept granted in
        rw (here, same) step
    Final-Step m ((s, db), none) (h, here, inr same) =
        let stored : view (store (type_for p) i h m) ≡ put p i h (view m) =
          fun_ext (λ q. fun_ext (λ j. view-store p q i j h m)) in
        let step : Step (connecting p i) (some h, none) (view m) (view (store (type_for p) i h m)) =
          subst (Step (connecting p i) (some h, none) (view m)) (sym stored) granted in
        rw (here, same) step

    connect-Step :
        (s : State W) (r : Local d i (type_for p) × Option Err)
        → connect d i (type_for p) host s ≡ returned r
        → Step (connecting p i) (r.0.1, r.1) (view s.connector) (view r.0.0.connector)
    connect-Step s r h =
        let (w, same) = connect_cases d i (type_for p) host s r h in
        subst (λ r. Step (connecting p i) (r.0.1, r.1) (view s.connector) (view r.0.0.connector))
          (sym same)
          (Final-Step s.connector
            (retried d i (type_for p) (record { connector = s.connector; world = w }))
            (retried-Final (record { connector = s.connector; world = w })))

  close-view :
      (i : ℤ) (s : State W) (q : Purpose) (j : ℤ)
      → view (close d i s).0.connector q j ≡ without i (view s.connector) q j
  unfolding view
  close-view i s reading j = (close-lookup d i j s).0
  close-view i s writing j = (close-lookup d i j s).1

  close-Step :
      (i : ℤ) (s : State W)
      → Step (closing i) (none, (close d i s).1) (view s.connector) (view (close d i s).0.connector)
  close-Step i s =
      subst (Step (closing i) (none, (close d i s).1) (view s.connector))
        (sym (fun_ext (λ q. fun_ext (λ j. close-view i s q j)))) closed

  close_all-view : (s : State W) (q : Purpose) (j : ℤ) → view (close_all d s).0.connector q j ≡ none
  unfolding view lookup
  close_all-view s reading j = ap (lookup j) (close_all_empties d s).0
  close_all-view s writing j = ap (lookup j) (close_all_empties d s).1

  close_all-Step :
      (s : State W)
      → Step closing_all
          (none, (close_all d s).1)
          (view s.connector)
          (view (close_all d s).0.connector)
  close_all-Step s =
      subst (Step closing_all (none, (close_all d s).1) (view s.connector))
        (sym (fun_ext (λ q. fun_ext (λ j. close_all-view s q j)))) cleared

  -- A step whose outcome is returned is a step to the outcome.
  returned-Step :
      (o : Op) (s : State W) (a b : State W × Reply)
      → returned a ≡ returned b
      → Step o a.1 (view s.connector) (view a.0.connector)
      → Step o b.1 (view s.connector) (view b.0.connector)
  returned-Step o s a b h step =
      let same : a ≡ b = cc in
      subst (λ q. Step o q.1 (view s.connector) (view q.0.connector)) same step

  exec_op-Step :
      (o : Op) (s : State W) (b : State W × Reply)
      → exec_op d host o s ≡ returned b
      → Step o b.1 (view s.connector) (view b.0.connector)
  unfolding exec_op get_read_connection get_write_connection
  exec_op-Step (looking reading i) s b h =
      returned-Step (looking reading i) s _ b h (get-Step reading i s.connector)
  exec_op-Step (looking writing i) s b h =
      returned-Step (looking writing i) s _ b h (get-Step writing i s.connector)
  exec_op-Step (connecting p i) s b h =
      let (r, done, rest) = bind-returned (connect d i (type_for p) host s) _ b h in
      returned-Step (connecting p i) s _ b rest (connect-Step p i s r done)
  exec_op-Step (closing i) s b h = returned-Step (closing i) s _ b h (close-Step i s)
  exec_op-Step closing_all s b h = returned-Step closing_all s _ b h (close_all-Step s)

  returned-Steps :
      (ops : List Op) (s : State W) (a b : State W × List Reply)
      → returned a ≡ returned b
      → Steps ops a.1 (view s.connector) (view a.0.connector)
      → Steps ops b.1 (view s.connector) (view b.0.connector)
  returned-Steps ops s a b h steps =
      let same : a ≡ b = cc in
      subst (λ q. Steps ops q.1 (view s.connector) (view q.0.connector)) same steps

  -- Each sequence of lookups, connections and closings that returns, in whatever order and with
  -- whatever errors, is a sequence of steps on the handles by purpose and shard, with the same
  -- replies: a lookup finds the handle that was last granted and not closed since, and no other.
  pub exec_ops-Steps :
      (ops : List Op) (s s' : State W) (rs : List Reply)
      → exec_ops d host ops s ≡ returned (s', rs)
      → Steps ops rs (view s.connector) (view s'.connector)
  unfolding exec_ops
  exec_ops-Steps [] s s' rs h = returned-Steps [] s (s, []) (s', rs) h at_rest
  exec_ops-Steps (o ∷ ops) s s' rs h =
      let (a, first, more) = bind-returned (exec_op d host o s) _ (s', rs) h in
      let (b, later, last) = bind-returned (exec_ops d host ops a.0) _ (s', rs) more in
      returned-Steps (o ∷ ops) s _ (s', rs) last
        (after_step (exec_op-Step o s a first) (exec_ops-Steps ops a.0 b.0 b.1 later))
