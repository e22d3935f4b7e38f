-- ===== src/Mem/Certs.antt =====
-- memory.go: `makeCertsVolume`, with the names of the files of a Redis node.
use zygote.Common.{Bytes, codes, Outcome, Result}
use zygote.Errors.{Err}
use zygote.Cluster.{Env}
use zygote.Cert.{System}
use zygote.Container.{Docker}
use zygote.Container.Spawn.{Spawner}
use zygote.Container.Input.{Inputs}
use zygote.Container.Certs.{make_certs_volume}
use zygote.Mem.{MemNode, mem_container_name, cert_vol_name}

unfoldable pub mem_certs_volume :
    {W : Type 0}
    → Docker W
    → Spawner W
    → Inputs W
    → System W
    → Env
    → Result Err Bytes
    → MemNode
    → W
    → Outcome W
mem_certs_volume k p n y env user_home m =
    make_certs_volume k p n y env user_home m.tenant (cert_vol_name m) (mem_container_name m)
      (codes "mem")
