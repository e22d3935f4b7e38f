-- ===== src/Commands/Calls.antt =====
-- lib/cluster/commands: c.go, q.go and call.go, which call a server with the certificate of a user.
use zygote.Common.{
  ◌||◌, Bool, ◌==◌, Option, none, some, List, [], ◌∷◌, ◌++◌, if◌then◌else◌, Bytes, codes, Outcome,
  returned, ◌>>=◌, Result, ok, err,
}
use zygote.Strings.{bytes_eq, contains}
use zygote.Errors.{Err, errorf, error_text}
use zygote.Cluster.{Env}
use zygote.Cert.{System, CertService, cert_service, ca_path, cert_path, key_path}
use zygote.Http.Client.{Trust, HttpClient, new_http_transport_config_for_user, http_client}

-- The default server of `c`.
unfoldable pub c_server : Bytes → Bytes
unfolding bytes_eq
c_server server = if bytes_eq server [] then codes "zygote:8443" else server

unfoldable pub with_https_port : Bytes → Bytes
unfolding contains
with_https_port server = if contains server (codes ":") then server else server ++ codes ":443"

unfoldable pub query_url : Bytes → Bytes → Bytes
unfolding with_https_port
query_url server path = codes "https://" ++ with_https_port server ++ path

-- `strings.ReplaceAll(query, "\"", "\\\"")`.
unfoldable pub escape_quotes : Bytes → Bytes
escape_quotes [] = []
escape_quotes (c ∷ s) =
    let rest = escape_quotes s in if c == b'"' then 92 ∷ b'"' ∷ rest else c ∷ rest

unfoldable pub curl_command : Bytes → Bytes → Bytes → Bytes → Bytes → Bytes
unfolding escape_quotes
curl_command cert key ca query url =
    codes "curl -s -X POST \\\n  --cert "
    ++ cert
    ++ codes " \\\n  --key "
    ++ key
    ++ codes " \\\n  --cacert "
    ++ ca
    ++ codes " \\\n  -H \"Content-Type: application/json\" \\\n  -d '{\"query\": \""
    ++ escape_quotes query
    ++ codes "\"}' \\\n  "
    ++ url

unfoldable pub is_method : Bytes → Bool
unfolding bytes_eq
is_method method =
    bytes_eq method (codes "GET")
    || bytes_eq method (codes "POST")
    || bytes_eq method (codes "PUT")
    || bytes_eq method (codes "DELETE")

unfoldable pub has_payload : Bytes → Bool
unfolding bytes_eq
has_payload method = bytes_eq method (codes "POST") || bytes_eq method (codes "PUT")

-- The body of the request: the input with its type, unless it is empty.
unfoldable pub body_of : Bytes → Bytes → Option (Bytes × Bytes)
body_of content_type [] = none
body_of content_type (b ∷ payload) = some (content_type, b ∷ payload)

-- resty, the standard streams, JSON and the splitting of a text into words. `send` is given the method,
-- the address and, for a body, its type and its bytes.
pub record Caller (W : Type 0) : Type 0 where
  pub send : HttpClient → Bytes → Bytes → Option (Bytes × Bytes) → W → (W × Bytes) × Option Err
  pub read_input : W → W × Result Err Bytes
  pub print : Bytes → W → W
  pub sql_request : Bytes → Result Err Bytes
  pub redis_request : List Bytes → Result Err Bytes
  pub parse_words : Bytes → Result Err (List Bytes)

module _ {W : Type 0} (y : System W) (t : Trust W) (x : Caller W) (env : Env)
    (user_home : Result Err Bytes) where
  -- What is printed is the text of the answer, also where there is an error.
  unfoldable pub printed : (W × Bytes) × Option Err → W × Option Err
  printed ((w, text), e) = (x.print text w, e)

  unfoldable pub post_with : Bytes → Bytes → W → Result Err HttpClient → W × Option Err
  post_with url payload w (err e) = (w, some e)
  post_with url payload w (ok client) =
      printed (x.send client (codes "POST") url (some (codes "application/json", payload)) w)

  -- `sendAndPrint`, from what `json.Marshal` returns.
  unfoldable pub send_and_print : Bytes → Bytes → Result Err Bytes → W → Outcome (W × Option Err)
  send_and_print url user (err e) w =
      returned (w, some (errorf (codes "failed to marshal payload: " ++ error_text e)))
  send_and_print url user (ok payload) w = do
    r ← new_http_transport_config_for_user y env user_home user w
    returned (post_with url payload r.0 (http_client y t r.1 r.0))

  unfoldable pub not_read : Err → Err
  not_read e = errorf (codes "failed to read from stdin: " ++ error_text e)

  unfoldable pub c_words : Bytes → Bytes → W → Result Err (List Bytes) → Outcome (W × Option Err)
  c_words url user w (err e) =
      returned (w, some (errorf (codes "failed to parse query: " ++ error_text e)))
  c_words url user w (ok words) = send_and_print url user (x.redis_request words) w

  unfoldable pub c_query : Bytes → Bytes → W × Result Err Bytes → Outcome (W × Option Err)
  c_query url user (w, err e) = returned (w, some (not_read e))
  c_query url user (w, ok []) = returned (w, some (errorf (codes "query cannot be empty")))
  c_query url user (w, ok (b ∷ query)) = c_words url user w (x.parse_words (b ∷ query))

  unfoldable pub c_action : Bytes → Bytes → W → Outcome (W × Option Err)
  unfolding query_url c_server
  c_action server user w =
      c_query (query_url (c_server server) (codes "/mem/query")) user (x.read_input w)

  -- The rest of `q`, once there is a service of certificates.
  unfoldable pub q_with : Bytes → Bytes → Bool → Bytes → CertService → W → Outcome (W × Option Err)
  unfolding curl_command
  q_with url user curl query c w = do
    cert ← cert_path y c user w
    key ← key_path y c user cert.0
    ca ← ca_path y c key.0
    let text = curl_command cert.1 key.1 ca.1 query url in
        (if curl
          then returned (x.print (text ++ b'\n' ∷ []) ca.0, none)
          else send_and_print url user (x.sql_request query) ca.0)

  unfoldable pub q_service :
      Bytes → Bytes → Bool → Bytes → W → Result Err CertService → Outcome (W × Option Err)
  q_service url user curl query w (err e) =
      returned (w, some (errorf (codes "failed to get certificate service: " ++ error_text e)))
  q_service url user curl query w (ok c) = q_with url user curl query c w

  unfoldable pub q_query : Bytes → Bytes → Bool → W × Result Err Bytes → Outcome (W × Option Err)
  q_query url user curl (w, err e) = returned (w, some (not_read e))
  q_query url user curl (w, ok query) = q_service url user curl query w (cert_service env user_home)

  unfoldable pub q_action : Bytes → Bytes → Bool → W → Outcome (W × Option Err)
  unfolding query_url bytes_eq
  q_action server user curl w =
      if bytes_eq server []
      then returned (w, some (errorf (codes "valid host is required")))
      else q_query (query_url server (codes "/sql/query")) user curl (x.read_input w)

  -- The end of `call`: the text of the answer is printed unless there is an error.
  unfoldable pub call_answered : (W × Bytes) × Option Err → W × Option Err
  call_answered ((w, text), none) = (x.print text w, none)
  call_answered ((w, text), some e) = (w, some e)

  unfoldable pub call_with :
      HttpClient → Bytes → Bytes → Option (Bytes × Bytes) → W → W × Option Err
  unfolding call_answered is_method
  call_with client method url body w =
      if is_method method
      then call_answered (x.send client method url body w)
      else (w, some (errorf (codes "unsupported HTTP method: " ++ method)))

  unfoldable pub call_input :
      HttpClient → Bytes → Bytes → Bytes → W × Result Err Bytes → W × Option Err
  call_input client method url content_type (w, err e) = (w, some (not_read e))
  call_input client method url content_type (w, ok payload) =
      call_with client method url (body_of content_type payload) w

  unfoldable pub call_client : Bytes → Bytes → Bytes → W → Result Err HttpClient → W × Option Err
  call_client method url content_type w (err e) = (w, some e)
  call_client method url content_type w (ok client) =
      if has_payload method
      then call_input client method url content_type (x.read_input w)
      else call_with client method url none w

  -- `call`, of the method in upper case, as the user of the process.
  unfoldable pub call_action : Bytes → Bytes → Bytes → Bytes → W → Outcome (W × Option Err)
  call_action user method url content_type w = do
    r ← new_http_transport_config_for_user y env user_home user w
    returned (call_client method url content_type r.0 (http_client y t r.1 r.0))
