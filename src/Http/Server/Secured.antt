-- ===== src/Http/Server/Secured.antt =====
-- server/http.go: what a server asks of its clients whenever it serves.
use zygote.Common.{true, Option, Bytes, returned, Result, ok, err, ◌≡◌}
use zygote.Errors.{Err}
use zygote.Cluster.{Env}
use zygote.Cert.{System, ca_path}
use zygote.Http.Server.{
  Server, TlsSettings, require_and_verify_client_cert, Source, Network, settings, served,
}

module _ {W : Type 0} (y : System W) (t : Network W) (env : Env) (s : Server) where
  -- The settings ask each client for a certificate of the authority whose certificate is in the file of
  -- the server's service.
  pub record AsksFor (w : W) (c : TlsSettings) : Type 0 where
    pub there : W
    pub path : Bytes
    pub found : ca_path y s.cs w ≡ returned (there, path)
    pub read : y.read_file path there ≡ ok c.client_cas
    pub parsed : t.append_pem c.client_cas ≡ true
    pub asks : c.client_auth ≡ require_and_verify_client_cert

  -- The server has been called with such settings, and `r` is what came of it.
  pub record Serves (w : W) (r : W × Option Err) : Type 0 where
    pub config : TlsSettings
    pub asking : AsksFor w config
    pub before : W
    pub cert : Bytes
    pub key : Bytes
    pub answer : served y t env s (t.listen_and_serve s.port config cert key before) ≡ r

  MadeOf : Bytes → W × Result Err TlsSettings → Type 0
  MadeOf pem (w, err e) = Unit
  MadeOf pem (w, ok c) = (source : Source) × (c ≡ settings y t env s pem source)
