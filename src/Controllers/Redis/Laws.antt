-- ===== src/Controllers/Redis/Laws.antt =====
-- The connection of the Redis controller, and that its handler always answers.
use zygote.Common.{
  true, Option, none, some, List, Bytes, codes, Outcome, returned, Result, ok, err, ◌≡◌, refl, ap,
  ◌∙◌, inl, inr, Bool-cases, Option-cases,
}
use zygote.Errors.{Err}
use zygote.Http.{Exchange, send_error, bind_body, bound}
use zygote.Controllers.Redis.{
  Client, Redis, RedisState, QueryResult, Call, pinged, made_client, reconnect, is_fresh,
  ensure_connection, attempts, with_body, connected, query_handler,
}

module _ {W : Type 0} (r : Redis W) where
  -- Connected exactly where there is no error.
  abbrev pub Matches : Call W → Type 0
  Matches (s, none) = (c : Client) × (s.client ≡ some c)
  Matches (s, some e) = s.client ≡ none

  pinged-Matches : (s : RedisState W) (c : Client) (p : W × Option Err) → Matches (pinged r s c p)
  unfolding pinged
  pinged-Matches s c (w, none) = (c, refl)
  pinged-Matches s c (w, some e) = refl

  made_client-Matches : (s : RedisState W) (p : W × Result Err Client) → Matches (made_client r s p)
  unfolding made_client
  made_client-Matches s (w, err e) = refl
  made_client-Matches s (w, ok c) = pinged-Matches s c (r.ping c w)

  reconnect-Matches : (s : RedisState W) → Matches (reconnect r s)
  unfolding reconnect
  reconnect-Matches s = elim (Option-cases s.client) [
    | inl gone ↦ rw (reconnect, gone) (made_client-Matches s (r.new_client s.world))
    | inr (c, here) ↦
        rw (reconnect, here) (made_client-Matches s (r.new_client (r.close_client c s.world)))
  ]

  fresh_client : (s : RedisState W) → is_fresh r s ≡ true → (c : Client) × (s.client ≡ some c)
  unfolding is_fresh
  fresh_client s fresh = elim (Option-cases s.client) [
    | inl gone ↦ absurd (cc (rw gone at fresh))
    | inr here ↦ here
  ]

  -- `ensureConnection` leaves the controller with a client exactly where it returns no error; where
  -- it returns one, the client that there was is gone.
  pub ensure_connection-Matches : (s : RedisState W) → Matches (ensure_connection r s)
  unfolding ensure_connection
  ensure_connection-Matches s = elim (Bool-cases (is_fresh r s)) [
    | inl fresh ↦ rw fresh (fresh_client s fresh)
    | inr stale ↦ rw stale (reconnect-Matches s)
  ]

  -- A connection that has been checked within five minutes is used as it is.
  pub ensure_connection-fresh :
      (s : RedisState W) → is_fresh r s ≡ true → ensure_connection r s ≡ (s, none)
  unfolding ensure_connection
  ensure_connection-fresh s fresh = rw fresh

  module _ (x : Exchange W (List Bytes) QueryResult) where
    -- The call comes to an end that is not a panic.
    abbrev pub Answers : Outcome (Call W) → Type 0
    Answers o = (a : Call W) × (o ≡ returned a)

    abbrev pub HasClient : RedisState W → Type 0
    HasClient s = (c : Client) × (s.client ≡ some c)

    -- On a connection that has been checked within five minutes, a body that cannot be read does
    -- not end the handler: after the answer with the error has been sent, what the body was filled
    -- with is executed as a query.
    pub query_handler_bad_body :
        (s : RedisState W) (w v : W) (query : List Bytes) (e : Err)
        → is_fresh r s ≡ true
        → x.bind s.world ≡ ((w, query), some e)
        → send_error x (codes "invalid request body") w ≡ (v, none)
        → query_handler r x s ≡ attempts r x 2 query (record s { world = v })
    unfolding query_handler connected with_body bind_body bound
    query_handler_bad_body s w v query e fresh bad sent =
        ap (connected r x) (ensure_connection-fresh s fresh)
        ∙ ap (λ b. with_body r x s (bound x b)) bad
        ∙ ap (λ a. with_body r x s ((a.0, query), a.1)) sent
