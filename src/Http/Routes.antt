-- ===== src/Http/Routes.antt =====
-- lib/cluster/server/http.go and lib/cluster/http/app.go: the routes that the controllers add.
use zygote.Common.{Option, none, some, List, [], ◌∷◌, ◌++◌, Bytes, codes, ℕ}
use zygote.Errors.{Err, errorf, wrap}

-- The methods; `other_method` is any other value of the integer type.
pub data Method : Type 0 where
  get post put delete patch any : Method
  other_method : ℕ → Method

-- A route, and the handler that is called for it.
pub record Route (H : Type 0) : Type 0 where
  pub method : Method
  pub path : Bytes
  pub handler : H

-- The routes so far, and an error.
abbrev pub Added : Type 0 → Type 0
Added H = List (Route H) × Option Err

-- What a controller adds under a prefix.
abbrev pub Controller : Type 0 → Type 0
Controller H = Bytes → List (Route H) → Added H

module _ {H : Type 0} where
  unfoldable pub registered : Method → Bytes → H → List (Route H) → Added H
  registered m path h routes =
      (routes ++ record { method = m; path = path; handler = h } ∷ [], none)

  -- `Server.Add`.
  unfoldable pub add : Method → Bytes → H → List (Route H) → Added H
  unfolding registered
  add get path h routes = registered get path h routes
  add post path h routes = registered post path h routes
  add put path h routes = registered put path h routes
  add delete path h routes = registered delete path h routes
  add patch path h routes = registered patch path h routes
  add any path h routes = registered any path h routes
  add (other_method n) path h routes = (routes, some (errorf (codes "unsupported method")))

  unfoldable pub or_error : (List (Route H) → Added H) → Added H → Added H
  or_error next (rs, none) = next rs
  or_error next (rs, some e) = (rs, some e)

  -- The Redis controller's `AddEndpoint`.
  unfoldable pub add_redis : H → H → Controller H
  unfolding or_error
  add_redis query nodes prefix routes =
      or_error (add get (prefix ++ codes "/mem/cluster/node") nodes)
        (add post (prefix ++ codes "/mem/query") query routes)

  -- The SQL controller's.
  unfoldable pub add_sql : H → H → Controller H
  unfolding or_error
  add_sql query nodes prefix routes =
      or_error (add post (prefix ++ codes "/sql/query") query)
        (add get (prefix ++ codes "/sql/cluster/node") nodes routes)

  unfoldable pub after_controller : (List (Route H) → Added H) → Added H → Added H
  after_controller next (rs, none) = next rs
  after_controller next (rs, some e) = (rs, some (wrap (codes "failed to add endpoint: ") e))

  -- `AddControllers`, where each controller gets the empty prefix.
  unfoldable pub add_controllers : List (Controller H) → List (Route H) → Added H
  unfolding after_controller
  add_controllers [] routes = (routes, none)
  add_controllers (c ∷ cs) routes = after_controller (add_controllers cs) (c [] routes)
