-- ===== src/Cert/Service.antt =====
-- cert.go: certificates and keys by name, which are made when they are asked for, and `TLSConfig`.
use zygote.Common.{
  Bool, true, false, Option, none, some, [], ◌∷◌, Bytes, codes, Outcome, returned, exited, ◌>>=◌,
  Result, ok, err,
}
use zygote.Errors.{Err}
use zygote.Cluster.{Env, container_cert_name}
use zygote.Cert.{
  System, CertService, Stat, present, absent, stat_failed, ca_path, cert_path, key_path,
  cert_service,
}
use zygote.Cert.Sign.{sign}

module _ {W : Type 0} (y : System W) where
  -- `FatalIfErr`.
  unfoldable pub fatal_if_err : Bytes → W × Option Err → Outcome W
  fatal_if_err text (w, none) = returned w
  fatal_if_err text (w, some e) = exited text

  -- `os.ReadFile` of a path that was found, where an error ends the process.
  unfoldable pub read_or_exit : Bytes → Outcome (W × Bytes) → Outcome (W × Bytes)
  read_or_exit text found = found >>= λ r. elim (y.read_file r.1 r.0) [
    | err e ↦ exited text
    | ok bytes ↦ returned (r.0, bytes)
  ]

  module _ (c : CertService) where
    unfoldable pub generated : Bytes → W → Outcome W
    generated name w =
        sign y c (name ∷ []) (codes "127.0.0.1" ∷ []) (y.next_year w) [] w
        >>= fatal_if_err (codes "Auto generate function cert")

    unfoldable pub cert_found : Bytes → W → Stat → Outcome W
    cert_found name w absent = generated name w
    cert_found name w present = returned w
    cert_found name w (stat_failed e) = returned w

    -- Only the file of the certificate is looked for.
    unfoldable pub ensure_cert : Bytes → W → Outcome W
    ensure_cert name w = cert_path y c name w >>= λ r. cert_found name r.0 (y.stat r.1 r.0)

    unfoldable pub cert : Bytes → W → Outcome (W × Bytes)
    cert name w = cert_path y c name w >>= λ r. ensure_cert name r.0 >>= λ v.
        read_or_exit (codes "Read function cert file") (returned (v, r.1))

    unfoldable pub key : Bytes → W → Outcome (W × Bytes)
    key name w = ensure_cert name w >>= λ v.
        read_or_exit (codes "Read function key file") (key_path y c name v)

    unfoldable pub ca : W → Outcome (W × Bytes)
    ca w = read_or_exit (codes "Read CA cert file") (ca_path y c w)

    module _ (env : Env) where
      unfoldable pub container_cert : Bytes → W → Outcome (W × Bytes)
      container_cert name = cert (container_cert_name env name)

      unfoldable pub container_key : Bytes → W → Outcome (W × Bytes)
      container_key name = key (container_cert_name env name)

      unfoldable pub container_cert_path : Bytes → W → Outcome (W × Bytes)
      container_cert_path name = cert_path y c (container_cert_name env name)

      unfoldable pub container_key_path : Bytes → W → Outcome (W × Bytes)
      container_key_path name = key_path y c (container_cert_name env name)

    -- The rest of `TLSConfig`, with `AppendCertsFromPEM` and `LoadX509KeyPair`: the pool of the roots
    -- and the pair of the client, by the texts and the paths that they come from.
    unfoldable pub client_pair :
        (Bytes → Bytes → W → W × Option Err) → Bytes → Bytes → W → Outcome (W × Bytes)
    client_pair load name roots w = cert_path y c name w >>= λ r. key_path y c name r.0 >>= λ s.
        fatal_if_err (codes "Load client certificate") (load r.1 s.1 s.0) >>= λ v.
        returned (v, roots)

    unfoldable pub with_roots :
        (Bytes → Bytes → W → W × Option Err) → Bytes → Bytes → Bool → W → Outcome (W × Bytes)
    with_roots load name roots false w = exited (codes "Failed to append CA certificate")
    with_roots load name roots true w = ensure_cert name w >>= client_pair load name roots

  with_service :
      (Bytes → Bool)
      → (Bytes → Bytes → W → W × Option Err)
      → Bytes
      → Result Err CertService
      → W
      → Outcome (W × Bytes)
  unfolding with_roots
  with_service append load name (err e) w = exited (codes "Create cert service")
  with_service append load name (ok c) w =
      ca c w >>= λ r. with_roots c load name r.1 (append r.1) r.0

  -- `TLSConfig`: the roots, once the pair of the name was loaded.
  unfoldable pub tls_config :
      (Bytes → Bool)
      → (Bytes → Bytes → W → W × Option Err)
      → Env
      → Result Err Bytes
      → Bytes
      → W
      → Outcome (W × Bytes)
  unfolding with_service
  tls_config append load env home name w = with_service append load name (cert_service env home) w
