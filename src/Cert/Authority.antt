-- ===== src/Cert/Authority.antt =====
-- cert.go: `MakeCaCert`.
use zygote.Common.{
  ℕ, Bool, true, false, Option, none, [], ◌++◌, Bytes, codes, ℤ, Outcome, returned, ◌>>=◌, Result,
  ok, err,
}
use zygote.Errors.{Err, errorf, error_text}
use zygote.Cert.{
  System, CertService, Template, itself, Key, path_exists, or_return, or_stop, encoded, ca_path,
  ca_key_path,
}

-- The template of the authority.
unfoldable pub ca_template : ℕ → ℤ → ℤ → Template
ca_template serial now expires_at = record {
  serial_number = serial;
  common_name = codes "Zygote Root CA";
  not_before = now;
  not_after = expires_at;
  is_ca = true;
  dns_names = [];
  ip_addresses = [];
}

-- The error of a serial number.
unfoldable pub serial_failed {ℓ} : {W : Type 0} {A : Type ℓ} → W × Result Err A → W × Result Err A
unfolding error_text
serial_failed (w, ok a) = (w, ok a)
serial_failed (w, err e) =
    (w, err (errorf (codes "failed to generate serial number: " ++ error_text e)))

module _ {W : Type 0} (y : System W) (c : CertService) where
  -- The file of a key is created before the key is marshalled.
  unfoldable pub write_key :
      Bytes → Key → (W → Outcome (W × Option Err)) → W → Outcome (W × Option Err)
  write_key path key next w =
      or_stop y
        (λ v.
          or_return y (λ bytes. encoded y path (codes "EC PRIVATE KEY") bytes next)
            (v, y.marshal_key key))
        (y.create path w)

  unfoldable pub write_cert :
      Bytes → Bytes → (W → Outcome (W × Option Err)) → W → Outcome (W × Option Err)
  write_cert path der next w =
      or_stop y (encoded y path (codes "CERTIFICATE") der next) (y.create path w)

  unfoldable pub generate_ca : ℤ → Bytes → W → Outcome (W × Option Err)
  generate_ca expires_at key_file w =
      or_return y
        (λ key v.
          or_return y
            (λ serial u.
              or_return y
                (λ der t. ca_path y c t >>= λ r.
                  write_cert r.1 der (write_key key_file key (λ v'. returned (v', none))) r.0)
                (y.create_certificate (ca_template serial (y.now u) expires_at) itself key key u))
            (serial_failed (y.random_serial v)))
        (y.generate_key w)

  unfoldable pub unless_there : ℤ → Bytes → W → Bool → Outcome (W × Option Err)
  unless_there expires_at key_file w true = returned (w, none)
  unless_there expires_at key_file w false = generate_ca expires_at key_file w

  -- `MakeCaCert`.
  unfoldable pub make_ca_cert : ℤ → W → Outcome (W × Option Err)
  make_ca_cert expires_at w =
      ca_key_path y c w >>= λ r. path_exists y r.1 r.0 >>= unless_there expires_at r.1 r.0
