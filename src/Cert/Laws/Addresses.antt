-- ===== src/Cert/Laws/Addresses.antt =====
-- cert.go: the addresses of a certificate.
use zygote.Cert.{System, CertService}

module _ {W : Type 0} (y : System W) (c : CertService) where
  -- Nothing holds after a call that never succeeds.
  abbrev Never : W → Type 0
  Never _ = ⊥

  abbrev Any : W → Type 0
  Any _ = Unit
