-- ===== src/Controllers/Nodes/Handler.antt =====
-- controller/mem.go: `ClusterNodesHandler`, with the call of the nodes.
use zygote.Common.{
  ℕ, Option, none, some, List, Bytes, codes, length, Outcome, returned, exited, Result, ok, err,
}
use zygote.Errors.{Err}
use zygote.Http.{Exchange, send, send_internal_error}
use zygote.Controllers.Redis.{Client, Redis, RedisState, Call, ensure_connection}
use zygote.Controllers.Nodes.{NodeInfo, cluster_nodes}

pub record NodesAnswer : Type 0 where
  pub nodes : List NodeInfo
  pub count : ℕ

-- `list_nodes` is `ClusterNodes` of the client.
module _ {W : Type 0} (r : Redis W) (list_nodes : Client → W → W × Result Err Bytes)
    (x : Exchange W (List Bytes) NodesAnswer) where
  unfoldable pub nodes_answered : (W → W × Option Err) → RedisState W → Call W
  nodes_answered f s = let a = f s.world in (record s { world = a.0 }, a.1)

  unfoldable pub nodes_listed : RedisState W → W × Result Err Bytes → Call W
  nodes_listed s (w, err e) =
      nodes_answered (send_internal_error x (codes "Failed to get cluster nodes") e)
        (record s { world = w })
  nodes_listed s (w, ok text) =
      let found = cluster_nodes text in
      nodes_answered (send x (record { nodes = found; count = length found }))
        (record s { world = w })

  unfoldable pub nodes_from_client : Call W → Outcome (Call W)
  nodes_from_client (s, some e) =
      returned (nodes_answered (send_internal_error x (codes "Redis connection failed: ") e) s)
  nodes_from_client (s, none) = elim s.client [
    | none ↦ exited (codes "panic: nil pointer dereference")
    | some c ↦ returned (nodes_listed s (list_nodes c s.world))
  ]

  unfoldable pub cluster_nodes_handler : RedisState W → Outcome (Call W)
  cluster_nodes_handler s = nodes_from_client (ensure_connection r s)
