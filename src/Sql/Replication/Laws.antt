-- ===== src/Sql/Replication/Laws.antt =====
-- When a node has joined its group: which statements have been run, and in which order.
use zygote.Common.{
  Option, none, List, [], ◌∷◌, ◌++◌, if◌then◌else◌, Bytes, pos, eqb_ℤ, ◌≡◌, refl, ap, ◌∙◌, Result,
  ok, err, All,
}
use zygote.Errors.{Err}
use zygote.Tables.{Driver, Handle}
use zygote.Sql.{SqlNode}
use zygote.Sql.Replication.{
  Queries, and_then, exec_all, common_queries, secondary_queries, final_queries, bootstrap_on,
}

-- The statements for a replica, in order.
abbrev pub plan : SqlNode → Bytes → Bytes → Bytes → List Bytes
plan s local seeds allowed =
    common_queries s local seeds allowed
    ++ ((if eqb_ℤ s.rep_index (pos 0) then bootstrap_on ∷ [] else secondary_queries)
        ++ final_queries)

module _ {W : Type 0} (d : Driver W) (q : Queries W) (s : SqlNode) (h : Handle) where
  -- The statements of a list succeed one after the other, from a state to another.
  pub data Runs : List Bytes → W → W → Type 0 where
    done : {w : W} → Runs [] w w
    step :
        {x : Bytes} {xs : List Bytes} {u w v : W}
        → q.exec h x w ≡ (u, none)
        → Runs xs u v
        → Runs (x ∷ xs) w v

  Runs-exec_all :
      (f : Err → Err) (xs : List Bytes) (w v : W)
      → Runs xs w v
      → exec_all d q s h f xs w ≡ (v, none)
  unfolding exec_all and_then
  Runs-exec_all f [] w v done = refl
  Runs-exec_all f (x ∷ xs) w v (step {u = u} e more) =
      ap (λ r. and_then f r (exec_all d q s h f xs)) e ∙ Runs-exec_all f xs u v more

  -- The check of the members scans each row.
  abbrev pub Scanned : W × Result Err (List (Option Err)) → W → Type 0
  Scanned (w, err e) v = ⊥
  Scanned (w, ok rows) v = (w ≡ v) × All (λ r. r ≡ none) rows
