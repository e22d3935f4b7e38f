-- ===== src/Http.antt =====
-- lib/cluster/server/http.go: the answers of a handler, and the routes of the server.
pub mod Routes
pub mod Server
pub mod Client
use zygote.Common.{ℕ, Option, none, some, List, [], ◌∷◌, Bytes, codes, Result, ok, err}
use zygote.Errors.{Err, errorf}

-- What is sent as JSON: a map with an error, or a response of a handler's own.
pub data Payload (R : Type 0) : Type 0 where
  error_message : Bytes → Payload R
  response : R → Payload R

-- A request and its answer, as echo shows them. `bind` fills the body, of which a part may be filled
-- when it fails; `peer_names` are the common names of the certificates of the client.
pub record Exchange (W B R : Type 0) : Type 0 where
  pub bind : W → (W × B) × Option Err
  pub json : ℕ → Payload R → W → W × Option Err
  pub string : ℕ → Bytes → W → W × Option Err
  pub peer_names : List Bytes

abbrev pub status_ok : ℕ
status_ok = 200

abbrev pub status_bad_request : ℕ
status_bad_request = 400

abbrev pub status_unauthorized : ℕ
status_unauthorized = 401

abbrev pub status_internal_server_error : ℕ
status_internal_server_error = 500

-- The name of the first certificate.
unfoldable pub user_of : List Bytes → Result Err Bytes
user_of [] = err (errorf (codes "no client certificate found"))
user_of (name ∷ names) = ok name

module _ {W B R : Type 0} (x : Exchange W B R) where
  unfoldable pub send : R → W → W × Option Err
  send r = x.json status_ok (response r)

  unfoldable pub send_error : Bytes → W → W × Option Err
  send_error msg = x.json status_bad_request (error_message msg)

  -- The message and the error go to the log only.
  unfoldable pub send_internal_error : Bytes → Err → W → W × Option Err
  send_internal_error msg e = x.string status_internal_server_error (codes "Internal Server Error")

  unfoldable pub send_string : Bytes → W → W × Option Err
  send_string = x.string status_ok

  unfoldable pub send_unauthorized_error : W → W × Option Err
  send_unauthorized_error = x.string status_unauthorized (codes "Unauthorized")

  unfoldable pub get_user : Result Err Bytes
  unfolding user_of
  get_user = user_of x.peer_names

  unfoldable pub bound : (W × B) × Option Err → (W × B) × Option Err
  unfolding send_error
  bound ((w, b), none) = ((w, b), none)
  bound ((w, b), some e) = let r = send_error (codes "invalid request body") w in ((r.0, b), r.1)

  unfoldable pub bind_body : W → (W × B) × Option Err
  unfolding bound
  bind_body w = bound (x.bind w)
