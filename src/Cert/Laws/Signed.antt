-- ===== src/Cert/Laws/Signed.antt =====
-- cert.go: a certificate that was signed is there.
use mathlib.Core.Path.{subst}
use zygote.Common.{ℕ, Option, none, some, List, [], ◌∷◌, ◌++◌, Bytes, codes, ℤ, Outcome, ◌>>=◌}
use zygote.Errors.{Err}
use zygote.Paths.{join_path}
use zygote.Cert.{
  System, CertService, in_dir, cert_dir_path, cert_dir, cert_path, key_path, ca_key_path, ca_path,
}
use zygote.Cert.Authority.{write_key, write_cert, serial_failed}
use zygote.Cert.Sign.{
  sign, sign_with, certify, write_files, export, exported, block_of, first_name, parse_ips,
}
use zygote.Cert.Laws.{
  Honest, After, or_stop-After, or_return-After, bind-After, returned-After, Present, encoded-After,
  in_dir-Present, in_dir-path,
}

module _ {W : Type 0} (y : System W) (c : CertService) (honest : Honest y) where
  -- A file that is there stays when a key is written.
  keep_key :
      (q path : Bytes) (key : ℕ) (next : W → Outcome (W × Option Err)) (w : W)
      → Present y q w
      → ((v : W) → Present y q v → After (Present y q) (next v))
      → After (Present y q) (write_key y c path key next w)
  unfolding write_key
  keep_key q path key next w h after =
      or_stop-After y (Present y q) (Present y q) _ (y.create path w)
        (λ _. honest.create_keeps q path w h)
        (λ v hv.
          or_return-After y (Present y q) (Present y q) _ (v, y.marshal_key key) hv
            (λ bytes u hu. encoded-After y q (Present y q) path _ bytes next u honest hu after))

  write_cert-Present :
      (path der : Bytes) (next : W → Outcome (W × Option Err)) (w : W)
      → ((v : W) → Present y path v → After (Present y path) (next v))
      → After (Present y path) (write_cert y c path der next w)
  unfolding write_cert
  write_cert-Present path der next w after =
      or_stop-After y (Present y path) (Present y path) _ (y.create path w) (honest.created path w)
        (λ v hv. encoded-After y path (Present y path) path _ der next v honest hv after)

  exported-After :
      (q : Bytes) (r : W × Option Err) → Present y q r.0 → After (Present y q) (exported y c r)
  unfolding exported After
  exported-After q (w, none) h v e = returned-After (Present y q) w h v e
  exported-After q (w, some x) h v e = cc

  export-After :
      (q name cert_file key_file password : Bytes) (w : W)
      → Present y q w
      → After (Present y q) (export y c name cert_file key_file password w)
  unfolding export cert_dir
  export-After q name cert_file key_file password w h =
      bind-After (Present y q) (in_dir y c (name ++ codes ".p12") (cert_dir y c name w)) _ (λ r e.
        exported-After q _ (
          honest.run_keeps q _ r.0
            (in_dir-Present y q c _ (cert_dir_path y c name) w r honest h e)))

  abbrev pub cert_file : Bytes → Bytes
  cert_file name = join_path (cert_dir_path y c name ∷ (name ++ codes "_cert.pem") ∷ [])

  after_cert : Bytes → Bytes → ℕ → Bytes → W → Outcome (W × Option Err)
  after_cert name password key path v =
      key_path y c name v >>= λ s. write_key y c s.1 key (export y c name path s.1 password) s.0

  after_cert-Present :
      (name password : Bytes) (key : ℕ) (path : Bytes) (v : W)
      → Present y path v
      → After (Present y path) (after_cert name password key path v)
  unfolding after_cert key_path cert_dir
  after_cert-Present name password key path v hv =
      bind-After (Present y path) (key_path y c name v) _ (λ s e.
        keep_key path s.1 key _ s.0
          (in_dir-Present y path c _ (cert_dir_path y c name) v s honest hv e)
          (λ u hu. export-After path name path s.1 password u hu))

  write_files-Present :
      (name password : Bytes) (key : ℕ) (der : Bytes) (w : W)
      → After (Present y (cert_file name)) (write_files y c name password key der w)
  unfolding write_files cert_path cert_dir after_cert
  write_files-Present name password key der w =
      bind-After (Present y (cert_file name)) (cert_path y c name w) _ (λ r e.
        subst
          (λ p. After (Present y p) (write_cert y c r.1 der (after_cert name password key r.1) r.0))
          (in_dir-path y c (name ++ codes "_cert.pem") (cert_dir_path y c name) w r e)
          (write_cert-Present r.1 der _ r.0 (after_cert-Present name password key r.1)))

  abbrev Any : W → Type 0
  Any _ = Unit

  sign_with-Present :
      (name : Bytes) (ips : List Bytes) (expires_at : ℤ) (password : Bytes) (ca_key ca_cert : ℕ)
      (w : W)
      → After
          (Present y (cert_file name))
          (sign_with y c (name ∷ []) ips expires_at password ca_key ca_cert w)
  unfolding sign_with certify first_name
  sign_with-Present name ips expires_at password ca_key ca_cert w =
      let P = Present y (cert_file name) in
      or_return-After y Any P _ (y.generate_key w) tt (λ key v _.
        or_return-After y Any P _ (serial_failed (y.random_serial v)) tt (λ serial u _.
          or_return-After y Any P _ (u, parse_ips y c ips) tt
            (λ parsed t _.
              or_return-After y Any P _ (y.create_certificate _ _ key ca_key t) tt
                (λ der s _. write_files-Present name password key der s))))

  pub sign-Present :
      (name : Bytes) (ips : List Bytes) (expires_at : ℤ) (password : Bytes) (w : W)
      → After (Present y (cert_file name)) (sign y c (name ∷ []) ips expires_at password w)
  unfolding sign
  sign-Present name ips expires_at password w =
      let P = Present y (cert_file name) in
      bind-After P (ca_key_path y c w) _ (λ r _.
        or_return-After y Any P _ (r.0, y.read_file r.1 r.0) tt
          (λ pem v _. bind-After P (block_of y c pem) _ (λ block _.
            or_return-After y Any P _ (v, y.parse_key block) tt
              (λ ca_key u _. bind-After P (ca_path y c u) _ (λ s _.
                or_return-After y Any P _ (s.0, y.read_file s.1 s.0) tt
                  (λ cert_pem t _. bind-After P (block_of y c cert_pem) _ (λ cert_block _.
                    or_return-After y Any P _ (t, y.parse_certificate cert_block) tt
                      (λ ca_cert v' _.
                        sign_with-Present name ips expires_at password ca_key ca_cert v'))))))))
