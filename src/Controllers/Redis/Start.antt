-- ===== src/Controllers/Redis/Start.antt =====
-- controller/mem.go: `NewRedisQueryController`. Its configuration is not read afterwards.
use zygote.Common.{none, some, List, codes, pos, Outcome, returned, exited, ◌>>=◌, Result, ok, err}
use zygote.Errors.{Err}
use zygote.Cluster.{Env, network_name, domain_name}
use zygote.Mem.{MemEndpoint, mem_endpoints, target_read_port}
use zygote.Controllers.Redis.{Redis, RedisState, Call, ensure_connection}

module _ {W : Type 0} (r : Redis W) where
  unfoldable pub usable : Call W → W × Result Err (RedisState W)
  usable (s, none) = (s.world, ok s)
  usable (s, some e) = (s.world, err e)

  -- Without a client the time of the last check is not looked at.
  unfoldable pub with_endpoints :
      W → Result Err (List MemEndpoint) → Outcome (W × Result Err (RedisState W))
  with_endpoints w (err e) = exited (codes "Get endpoints")
  with_endpoints w (ok es) =
      returned
        (usable (ensure_connection r (record { client = none; last_check = pos 0; world = w })))

  unfoldable pub new_redis_query_controller : Env → W → Outcome (W × Result Err (RedisState W))
  new_redis_query_controller env w =
      mem_endpoints (network_name env) (domain_name env) (pos 2) target_read_port
      >>= with_endpoints w
