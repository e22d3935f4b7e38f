-- ===== src/Http/Server.antt =====
-- server/http.go: `NewServer`, `tlsConfig` and `Listen`. Of the settings of TLS those are here that depend
-- on the server; the least version and the timeouts are constants.
pub mod Secured
use zygote.Common.{
  Bool, true, false, Option, none, some, List, [], ◌∷◌, ◌++◌, if◌then◌else◌, Bytes, codes, ℤ, pos,
  Outcome, returned, ◌>>=◌, Result, ok, err,
}
use zygote.Strings.{bytes_eq, to_lower}
use zygote.Strconv.{atoi}
use zygote.Errors.{Err, errorf, wrap}
use zygote.Cluster.{Env, host_name, domain_name}
use zygote.Cert.{System, CertService, cert_service, ca_path, cert_dir, cert_path, key_path}

pub record Server : Type 0 where
  pub cs : CertService
  pub use_acme : Bool
  pub use_domain_cert : Bool
  pub host : Bytes
  pub port : ℤ

unfoldable pub is_set : Env → Bytes → Bool
unfolding bytes_eq to_lower
is_set env name = bytes_eq (to_lower (env name)) (codes "true")

-- The port, from what `Atoi` makes of its text. `bad_port` is the error of `Atoi`; the server that is
-- returned beside it is left out.
unfoldable pub with_port : (Bytes → Err) → Bytes → (ℤ → Server) → Option ℤ → Result Err Server
with_port bad_port text server (some port) = ok (server port)
with_port bad_port text server none = err (wrap (codes "failed to parse port: ") (bad_port text))

unfoldable pub server_of : Env → (Bytes → Err) → Result Err CertService → Result Err Server
unfolding with_port is_set host_name bytes_eq atoi
server_of env bad_port (err e) = err (wrap (codes "failed to create cert service: ") e)
server_of env bad_port (ok c) =
    let text = env (codes "ZCORE_PORT") in
    let server : ℤ → Server = λ port. record {
      cs = c;
      use_acme = is_set env (codes "ACME");
      use_domain_cert = is_set env (codes "USE_DOMAIN_CERT");
      host = host_name env;
      port = port;
    } in
    if bytes_eq text [] then ok (server (pos 8443)) else with_port bad_port text server (atoi text)

unfoldable pub new_server : Env → Result Err Bytes → (Bytes → Err) → Result Err Server
unfolding server_of cert_service
new_server env user_home bad_port = server_of env bad_port (cert_service env user_home)

-- What a client has to show.
pub data ClientAuth : Type 0 where
  no_client_cert require_and_verify_client_cert : ClientAuth

-- Where the certificate of the server comes from: from Let's Encrypt, for the hosts of a list and with
-- a cache in a directory, or from two files.
pub data Source : Type 0 where
  from_acme : List Bytes → Bytes → Source
  from_files : Bytes → Bytes → Source

pub record TlsSettings : Type 0 where
  pub client_cas : Bytes
  pub client_auth : ClientAuth
  pub source : Source

-- What the server calls: the parsing of certificates, the server of challenges, which runs beside, and
-- `ListenAndServeTLS`.
pub record Network (W : Type 0) : Type 0 where
  pub append_pem : Bytes → Bool
  pub load_pair : Bytes → Bytes → W → W × Option Err
  pub serve_challenges : W → W
  pub listen_and_serve : ℤ → TlsSettings → Bytes → Bytes → W → W × Option Err

module _ {W : Type 0} (y : System W) (t : Network W) (env : Env) (s : Server) where
  unfoldable pub hosts : List Bytes
  unfolding domain_name
  hosts = if s.use_domain_cert then s.host ∷ domain_name env ∷ [] else s.host ∷ []

  unfoldable pub settings : Bytes → Source → TlsSettings
  settings pem source = record {
    client_cas = pem;
    client_auth = require_and_verify_client_cert;
    source = source;
  }

  unfoldable pub paired :
      Bytes → Bytes → Bytes → W × Option Err → Outcome (W × Result Err TlsSettings)
  paired pem cert key (w, none) = returned (w, ok (settings pem (from_files cert key)))
  paired pem cert key (w, some e) =
      returned (w, err (wrap (codes "failed to load server certificate: ") e))

  -- The branches for Let's Encrypt and for local certificates.
  unfoldable pub sourced : Bytes → Bool → W → Outcome (W × Result Err TlsSettings)
  sourced pem true w = do
    r ← cert_dir y s.cs s.host w
    returned (t.serve_challenges r.0, ok (settings pem (from_acme hosts r.1)))
  sourced pem false w = do
    r ← cert_path y s.cs s.host w
    q ← key_path y s.cs s.host r.0
    paired pem r.1 q.1 (t.load_pair r.1 q.1 q.0)

  unfoldable pub appended : Bytes → Bool → W → Outcome (W × Result Err TlsSettings)
  appended pem true w = sourced pem s.use_acme w
  appended pem false w = returned (w, err (errorf (codes "failed to append client CA certificate")))

  unfoldable pub ca_read : W → Result Err Bytes → Outcome (W × Result Err TlsSettings)
  ca_read w (err e) = returned (w, err (wrap (codes "failed to read client CA certificate: ") e))
  ca_read w (ok pem) = appended pem (t.append_pem pem) w

  unfoldable pub server_tls_config : W → Outcome (W × Result Err TlsSettings)
  server_tls_config w = do r ← ca_path y s.cs w; ca_read r.0 (y.read_file r.1 r.0)

  unfoldable pub served : W × Option Err → W × Option Err
  served (w, none) = (w, none)
  served (w, some e) = (w, some (wrap (codes "failed to start server: ") e))

  unfoldable pub serve : TlsSettings → Bool → W → Outcome (W × Option Err)
  serve c true w = returned (served (t.listen_and_serve s.port c [] [] w))
  serve c false w = do
    r ← cert_path y s.cs s.host w
    q ← key_path y s.cs s.host r.0
    returned (served (t.listen_and_serve s.port c r.1 q.1 q.0))

  unfoldable pub with_tls : W × Result Err TlsSettings → Outcome (W × Option Err)
  with_tls (w, err e) = returned (w, some (wrap (codes "failed to create TLS config: ") e))
  with_tls (w, ok c) = serve c s.use_acme w

  unfoldable pub listen : W → Outcome (W × Option Err)
  listen w = do r ← server_tls_config w; with_tls r
