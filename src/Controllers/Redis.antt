-- ===== src/Controllers/Redis.antt =====
-- lib/cluster/controller/mem.go: the connection to Redis, and the handler of a query.
pub mod Laws
pub mod Start
use zygote.Common.{
  ℕ, zero, suc, ◌*◌, Bool, true, false, ◌&&◌, Option, none, some, List, [], ◌∷◌, map, if◌then◌else◌,
  Bytes, codes, ℤ, pos, ltb_ℤ, Outcome, returned, exited, ◌>>=◌, Result, ok, err,
}
use zygote.Strings.{contains}
use zygote.Errors.{Err, error_text}
use zygote.Backoff.{second}
use zygote.Http.{Exchange, send, send_internal_error, bind_body}

-- A client is known by a number.
abbrev pub Client : Type 0
Client = ℕ

-- An item of a list that Redis replies with: a text, or another value with its text.
pub data Item : Type 0 where
  text_item : Bytes → Item
  other_item : Bytes → Item

pub data Reply : Type 0 where
  text_reply : Bytes → Reply
  int_reply : ℤ → Reply
  list_reply : List Item → Reply
  other_reply : Bytes → Reply

pub data QueryResult : Type 0 where
  text_result : Bytes → QueryResult
  int_result : ℤ → QueryResult
  list_result : List Bytes → QueryResult
  other_result : Bytes → QueryResult

-- The package `go-redis`, through memconn's `Client`, and the clock: `since` is `time.Since`.
pub record Redis (W : Type 0) : Type 0 where
  pub new_client : W → W × Result Err Client
  pub ping : Client → W → W × Option Err
  pub close_client : Client → W → W
  pub exec : Client → List Bytes → W → W × Result Err Reply
  pub now : W → ℤ
  pub since : ℤ → W → ℤ

-- The controller and the state of what it calls.
pub record RedisState (W : Type 0) : Type 0 where
  pub client : Option Client
  pub last_check : ℤ
  pub world : W

abbrev pub Call : Type 0 → Type 0
Call W = RedisState W × Option Err

unfoldable pub item_text : Item → Bytes
item_text (text_item s) = s
item_text (other_item s) = s

-- The `switch` on the type of the result.
unfoldable pub format : Reply → QueryResult
unfolding item_text
format (text_reply s) = text_result s
format (int_reply n) = int_result n
format (list_reply items) = list_result (map item_text items)
format (other_reply s) = other_result s

module _ {W : Type 0} (r : Redis W) where
  unfoldable pub pinged : RedisState W → Client → W × Option Err → Call W
  pinged s c (w, some e) =
      (record { client = none; last_check = s.last_check; world = r.close_client c w }, some e)
  pinged s c (w, none) = (record { client = some c; last_check = r.now w; world = w }, none)

  unfoldable pub made_client : RedisState W → W × Result Err Client → Call W
  unfolding pinged
  made_client s (w, err e) =
      (record { client = none; last_check = s.last_check; world = w }, some e)
  made_client s (w, ok c) = pinged s c (r.ping c w)

  -- Closes the client, if there is one, and connects again.
  unfoldable pub reconnect : RedisState W → Call W
  unfolding made_client
  reconnect s = elim s.client [
    | none ↦ made_client s (r.new_client s.world)
    | some c ↦ made_client s (r.new_client (r.close_client c s.world))
  ]

  unfoldable pub is_fresh : RedisState W → Bool
  is_fresh s = elim s.client [
    | none ↦ false
    | some c ↦ ltb_ℤ (r.since s.last_check s.world) (pos (5 * 60 * second))
  ]

  unfoldable pub ensure_connection : RedisState W → Call W
  unfolding is_fresh reconnect
  ensure_connection s = if is_fresh s then (s, none) else reconnect s

  unfoldable pub close_controller : RedisState W → RedisState W
  close_controller s = elim s.client [
    | none ↦ s
    | some c ↦ record s { client = none; world = r.close_client c s.world }
  ]

  module _ (x : Exchange W (List Bytes) QueryResult) where
    -- An answer, from the state of the controller.
    unfoldable pub answer : (W → W × Option Err) → RedisState W → Call W
    answer f s = let a = f s.world in (record s { world = a.0 }, a.1)

    unfoldable pub failed : Bytes → Err → RedisState W → Call W
    unfolding answer
    failed text e = answer (send_internal_error x text e)

    -- `rc.client.Do`, which needs a client.
    unfoldable pub do_query : List Bytes → RedisState W → Outcome (RedisState W × Result Err Reply)
    do_query args s = elim s.client [
      | none ↦ exited (codes "panic: nil pointer dereference")
      | some c ↦ let a = r.exec c args s.world in returned (record s { world = a.0 }, a.1)
    ]

    -- After a reconnection: the next round, or the answer to its error.
    unfoldable pub reconnected : (RedisState W → Outcome (Call W)) → Call W → Outcome (Call W)
    unfolding failed
    reconnected next (s, none) = next s
    reconnected next (s, some e) = returned (failed (codes "Failed to reconnect to Redis: ") e s)

    -- What a round of the loop leads to. `next` is the next round, with the error so far.
    unfoldable pub after_do :
        (Err → RedisState W → Outcome (Call W)) → RedisState W × Result Err Reply → Outcome (Call W)
    unfolding reconnected failed answer
    after_do next (s, ok reply) = returned (answer (send x (format reply)) s)
    after_do next (s, err e) =
        if contains (error_text e) (codes "connection")
        then reconnected (next e) (ensure_connection s)
        else returned (failed (codes "Command execution failed") e s)

    -- A round of the loop, with the number of rounds that may follow it.
    unfoldable pub attempts : ℕ → List Bytes → RedisState W → Outcome (Call W)
    unfolding after_do failed
    attempts zero args s = do
      a ← do_query args s
      after_do (λ e u. returned (failed (codes "Command execution failed") e u)) a
    attempts (suc left) args s = do a ← do_query args s; after_do (λ e u. attempts left args u) a

    -- The loop has three rounds.
    unfoldable pub with_body : RedisState W → (W × List Bytes) × Option Err → Outcome (Call W)
    unfolding attempts
    with_body s ((w, query), some e) = returned (record s { world = w }, some e)
    with_body s ((w, query), none) = attempts 2 query (record s { world = w })

    unfoldable pub connected : Call W → Outcome (Call W)
    unfolding with_body failed
    connected (s, some e) = returned (failed (codes "Redis connection failed: ") e s)
    connected (s, none) = with_body s (bind_body x s.world)

    unfoldable pub query_handler : RedisState W → Outcome (Call W)
    unfolding connected
    query_handler s = connected (ensure_connection s)
