-- ===== src/Http/Client.antt =====
-- lib/cluster/http/http.go: the client that shows a certificate of its user.
use zygote.Common.{
  Bool, true, false, Option, none, some, List, [], ◌∷◌, ◌++◌, Bytes, codes, Outcome, returned,
  exited, ◌>>=◌, Result, ok, err,
}
use zygote.Errors.{Err, errorf}
use zygote.Cluster.{Env}
use zygote.Cert.{System, CertService, cert_service, ca_path, cert_path, key_path}

pub record HttpTransportConfig : Type 0 where
  pub ca_cert_file : Bytes
  pub func_cert_file : Bytes
  pub func_key_file : Bytes

-- What the client trusts, and the files of the certificate and the key that it shows.
pub record HttpClient : Type 0 where
  pub root_cas : List Bytes
  pub cert_file : Bytes
  pub key_file : Bytes

-- The pool of the system, as the texts that it is made of, and the parsing of certificates.
pub record Trust (W : Type 0) : Type 0 where
  pub system_cert_pool : W → Result Err (List Bytes)
  pub append_pem : Bytes → Bool
  pub load_pair : Bytes → Bytes → W → Option Err

module _ {W : Type 0} (y : System W) where
  unfoldable pub config_for : Bytes → Result Err CertService → W → Outcome (W × HttpTransportConfig)
  config_for user (err e) w = exited (codes "Create cert service")
  config_for user (ok c) w = do
    ca ← ca_path y c w
    cert ← cert_path y c user ca.0
    key ← key_path y c user cert.0
    returned (key.0, record { ca_cert_file = ca.1; func_cert_file = cert.1; func_key_file = key.1 })

  -- `NewHTTPTransportConfigForUser`; `NewHTTPTransportConfig` is for the user of the process.
  unfoldable pub new_http_transport_config_for_user :
      Env → Result Err Bytes → Bytes → W → Outcome (W × HttpTransportConfig)
  new_http_transport_config_for_user env user_home user =
      config_for user (cert_service env user_home)

  module _ (t : Trust W) (s : HttpTransportConfig) where
    unfoldable pub with_pair : List Bytes → Option Err → Result Err HttpClient
    with_pair roots (some e) = err e
    with_pair roots none =
        ok (record { root_cas = roots; cert_file = s.func_cert_file; key_file = s.func_key_file })

    unfoldable pub with_root : List Bytes → Bytes → Bool → W → Result Err HttpClient
    with_root system pem false w = err (errorf (codes "failed to append server CA cert"))
    with_root system pem true w =
        with_pair (system ++ pem ∷ []) (t.load_pair s.func_cert_file s.func_key_file w)

    unfoldable pub with_pool : Bytes → Result Err (List Bytes) → W → Result Err HttpClient
    with_pool pem (err e) w = err e
    with_pool pem (ok system) w = with_root system pem (t.append_pem pem) w

    unfoldable pub with_ca : Result Err Bytes → W → Result Err HttpClient
    with_ca (err e) w = err e
    with_ca (ok pem) w = with_pool pem (t.system_cert_pool w) w

    -- `Client`.
    unfoldable pub http_client : W → Result Err HttpClient
    http_client w = with_ca (y.read_file s.ca_cert_file w) w
