-- ===== src/Commands/Certs.antt =====
-- lib/cluster/commands/cert.go: the commands that make the certificates.
use zygote.Common.{
  Option, some, List, [], if◌then◌else◌, Bytes, codes, ℤ, Outcome, returned, Result, ok, err,
}
use zygote.Strings.{bytes_eq}
use zygote.Errors.{Err, errorf}
use zygote.Cluster.{Env}
use zygote.Cert.{System, CertService, cert_service}
use zygote.Cert.Authority.{make_ca_cert}
use zygote.Cert.Sign.{sign}

module _ {W : Type 0} (y : System W) where
  unfoldable pub with_certs :
      (CertService → W → Outcome (W × Option Err))
      → Result Err CertService
      → W
      → Outcome (W × Option Err)
  with_certs next (err e) w = returned (w, some e)
  with_certs next (ok c) w = next c w

  -- `root`, with the time that is the number of days away.
  unfoldable pub root_action : Env → Result Err Bytes → ℤ → W → Outcome (W × Option Err)
  root_action env user_home expires_at =
      with_certs (λ c. make_ca_cert y c expires_at) (cert_service env user_home)

  -- `sign`. `name` is the flag as one text, `names` as a list.
  unfoldable pub sign_action :
      Env
      → Result Err Bytes
      → Bytes
      → List Bytes
      → List Bytes
      → Bytes
      → W
      → Outcome (W × Option Err)
  unfolding bytes_eq
  sign_action env user_home name names ips password =
      with_certs
        (λ c w.
          if bytes_eq name []
          then returned (w, some (errorf (codes "name is required")))
          else sign y c names ips (y.next_year w) password w)
        (cert_service env user_home)
