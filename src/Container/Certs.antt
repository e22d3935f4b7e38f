-- ===== src/Container/Certs.antt =====
-- The volume of the certificates of a container: `makeCertsVolume` of db.go and of memory.go, which
-- differ in the names of the volume and of the files.
use zygote.Common.{◌++◌, Bytes, codes, Outcome, exited, ◌>>=◌, Result, ok, err}
use zygote.Errors.{Err}
use zygote.Cluster.{Env}
use zygote.Cert.{System, CertService, cert_service}
use zygote.Cert.Service.{ca, container_cert, container_key}
use zygote.Container.{Docker, app_network_name}
use zygote.Container.Spawn.{Spawner}
use zygote.Container.Input.{Inputs, vol}

module _ {W : Type 0} (k : Docker W) (p : Spawner W) (n : Inputs W) (y : System W) (env : Env) where
  -- `container.Vol`, on the network of the application.
  unfoldable pub put_file : Bytes → Bytes → Bytes → Bytes → Bytes → W → Outcome W
  put_file tenant content volume dir file w =
      vol k p n tenant content volume dir file (app_network_name env) w

  -- `prefix` is that of the names of the files.
  unfoldable pub put_certs : CertService → Bytes → Bytes → Bytes → Bytes → W → Outcome W
  put_certs c tenant volume container prefix w = do
    authority ← ca y c w
    w1 ←
        put_file tenant authority.1 volume (codes "/etc/certs") (prefix ++ codes "-ca-cert.pem")
          authority.0
    own ← container_cert y c env container w1
    w2 ←
        put_file tenant own.1 volume (codes "/etc/certs") (prefix ++ codes "-server-cert.pem") own.0
    private ← container_key y c env container w2
    put_file tenant private.1 volume (codes "/etc/certs") (prefix ++ codes "-server-key.pem")
        private.0

  unfoldable pub certs_with : Result Err CertService → Bytes → Bytes → Bytes → Bytes → W → Outcome W
  certs_with (err e) tenant volume container prefix w = exited (codes "Create cert service")
  certs_with (ok c) tenant volume container prefix w = put_certs c tenant volume container prefix w

  unfoldable pub make_certs_volume :
      Result Err Bytes → Bytes → Bytes → Bytes → Bytes → W → Outcome W
  make_certs_volume user_home = certs_with (cert_service env user_home)
