-- ===== src/Cert/Sign.antt =====
-- cert.go: `Sign`, which makes a key and a certificate for a name.
use zygote.Common.{
  ℕ, false, Option, none, some, List, [], ◌∷◌, ◌++◌, if◌then◌else◌, Bytes, codes, ℤ, Outcome,
  returned, exited, ◌>>=◌, Result, ok, err,
}
use zygote.Strings.{bytes_eq}
use zygote.Errors.{Err, errorf, error_text}
use zygote.Cert.{
  System, CertService, Template, Key, parsed, or_return, in_dir, ca_path, ca_key_path, cert_path,
  key_path, cert_dir,
}
use zygote.Cert.Authority.{serial_failed, write_key, write_cert}

module _ {W : Type 0} (y : System W) (c : CertService) where
  -- The loop over the addresses, and the error of the first that is none.
  unfoldable pub parse_ips : List Bytes → Result Err (List ℕ)
  parse_ips [] = ok []
  parse_ips (text ∷ texts) = elim (y.parse_ip text) [
    | none ↦ err (errorf (codes "invalid IP address: " ++ text))
    | some ip ↦ elim (parse_ips texts) [ err e ↦ err e | ok ips ↦ ok (ip ∷ ips) ]
  ]

  -- The bytes of the first block, `caKeyBlock.Bytes`, of which there may be none.
  unfoldable pub block_of : Bytes → Outcome Bytes
  block_of pem = elim (y.pem_decode pem) [
    | none ↦
        exited (codes "panic: runtime error: invalid memory address or nil pointer dereference")
    | some bytes ↦ returned bytes
  ]

  -- `domain[0]`.
  unfoldable pub first_name : List Bytes → Outcome Bytes
  first_name [] = exited (codes "panic: runtime error: index out of range")
  first_name (name ∷ names) = returned name

  unfoldable pub server_template : ℕ → Bytes → ℤ → ℤ → List Bytes → List ℕ → Template
  server_template serial name now expires_at domain ips = record {
    serial_number = serial;
    common_name = name;
    not_before = now;
    not_after = expires_at;
    is_ca = false;
    dns_names = domain;
    ip_addresses = ips;
  }

  -- The arguments of openssl.
  unfoldable pub p12_command : Bytes → Bytes → Bytes → Bytes → List Bytes
  p12_command cert_file key_file p12_file password =
      let base =
        codes "openssl"
        ∷ codes "pkcs12"
        ∷ codes "-export"
        ∷ codes "-in"
        ∷ cert_file
        ∷ codes "-inkey"
        ∷ key_file
        ∷ codes "-out"
        ∷ p12_file
        ∷ [] in
      if bytes_eq password [] then base ++ codes "-passout" ∷ codes "pass:" ∷ [] else base

  unfoldable pub exported : W × Option Err → Outcome (W × Option Err)
  exported (w, none) = returned (w, none)
  exported (w, some e) =
      returned (w, some (errorf (codes "failed to create p12 file: " ++ error_text e)))

  unfoldable pub export : Bytes → Bytes → Bytes → Bytes → W → Outcome (W × Option Err)
  export name cert_file key_file password w =
      in_dir y c (name ++ codes ".p12") (cert_dir y c name w) >>= λ r.
      exported (y.run (p12_command cert_file key_file r.1 password) r.0)

  -- The files of a certificate that was signed.
  unfoldable pub write_files : Bytes → Bytes → Key → Bytes → W → Outcome (W × Option Err)
  write_files name password key der w = cert_path y c name w >>= λ r.
      write_cert y c r.1 der
        (λ v. key_path y c name v >>= λ s. write_key y c s.1 key (export name r.1 s.1 password) s.0)
        r.0

  unfoldable pub certify :
      List Bytes → ℤ → Bytes → Key → ℕ → Key → ℕ → List ℕ → W → Outcome (W × Option Err)
  certify domain expires_at password ca_key ca_cert key serial ips w = first_name domain >>= λ name.
      or_return y (write_files name password key) (
        y.create_certificate (server_template serial name (y.now w) expires_at domain ips)
          (parsed ca_cert) key ca_key w)

  -- From the key of the server on.
  unfoldable pub sign_with :
      List Bytes → List Bytes → ℤ → Bytes → Key → ℕ → W → Outcome (W × Option Err)
  sign_with domain ips expires_at password ca_key ca_cert w =
      or_return y
        (λ key v.
          or_return y
            (λ serial u.
              or_return y (certify domain expires_at password ca_key ca_cert key serial)
                (u, parse_ips ips))
            (serial_failed (y.random_serial v)))
        (y.generate_key w)

  -- `Sign`.
  unfoldable pub sign : List Bytes → List Bytes → ℤ → Bytes → W → Outcome (W × Option Err)
  sign domain ips expires_at password w = ca_key_path y c w >>= λ r.
      or_return y
        (λ pem v. block_of pem >>= λ block.
          or_return y
            (λ ca_key u. ca_path y c u >>= λ s.
              or_return y
                (λ cert_pem t. block_of cert_pem >>= λ cert_block.
                  or_return y (λ ca_cert. sign_with domain ips expires_at password ca_key ca_cert)
                    (t, y.parse_certificate cert_block))
                (s.0, y.read_file s.1 s.0))
            (v, y.parse_key block))
        (r.0, y.read_file r.1 r.0)
