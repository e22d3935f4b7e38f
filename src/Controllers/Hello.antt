-- ===== src/Controllers/Hello.antt =====
-- lib/cluster/controller/hello.go and relay.go: the handlers that need the certificate of a client.
use zygote.Common.{
  Option, none, [], ◌∷◌, ◌++◌, if◌then◌else◌, Bytes, codes, Result, ok, err, ◌≡◌, ap,
}
use zygote.Strings.{bytes_eq}
use zygote.Errors.{Err}
use zygote.Http.{
  Exchange, user_of, get_user, send_string, send_unauthorized_error, status_unauthorized,
}
use zygote.Http.Routes.{Controller, any, get, add}

module _ {W B R : Type 0} (x : Exchange W B R) where
  unfoldable pub greeted : Result Err Bytes → W → W × Option Err
  greeted (err e) = send_unauthorized_error x
  greeted (ok u) = send_string x (codes "Hello, " ++ u ++ codes "! You've been authenticated!\n")

  unfoldable pub handle_hello : W → W × Option Err
  unfolding greeted
  handle_hello = greeted (get_user x)

  -- `serve` is the proxy on the request that `handleRelay` has changed: it gets the host and the scheme
  -- of the target, and the path of the request.
  unfoldable pub relayed :
      (Bytes → Bytes → Bytes → W → W)
      → Bytes
      → Bytes
      → Bytes
      → Result Err Bytes
      → W
      → W × Option Err
  relayed serve host scheme path (err e) w = send_unauthorized_error x w
  relayed serve host scheme path (ok u) w = (serve host scheme path w, none)

  unfoldable pub handle_relay :
      (Bytes → Bytes → Bytes → W → W) → Bytes → Bytes → Bytes → W → W × Option Err
  unfolding relayed
  handle_relay serve host scheme path = relayed serve host scheme path (get_user x)

  -- Without a certificate both handlers answer that the client is not authorized, and nothing else is
  -- done: no request is relayed.
  pub handle_unauthorized :
      (serve : Bytes → Bytes → Bytes → W → W) (host scheme path : Bytes) (w : W)
      → x.peer_names ≡ []
      → (handle_hello w ≡ x.string status_unauthorized (codes "Unauthorized") w)
        × (handle_relay serve host scheme path w
            ≡ x.string status_unauthorized (codes "Unauthorized") w)
  unfolding handle_hello handle_relay greeted relayed get_user user_of send_unauthorized_error
  handle_unauthorized serve host scheme path w anonymous = (
    ap (λ names. greeted (user_of names) w) anonymous,
    ap (λ names. relayed serve host scheme path (user_of names) w) anonymous,
  )

-- `AddEndpoint` of the two, for methods that every router adds: the exit on an error is not met.
module _ {H : Type 0} where
  unfoldable pub add_hello : H → Controller H
  add_hello hello prefix = add get (prefix ++ codes "/hello") hello

  unfoldable pub add_relay : Bytes → H → Controller H
  unfolding bytes_eq
  add_relay base relay prefix =
      if bytes_eq base []
      then add any (prefix ++ codes "/*") relay
      else add any (prefix ++ b'/' ∷ (base ++ codes "/*")) relay
