-- ===== src/Cert/Laws/Again.antt =====
-- cert.go: what was made once is not made again.
use mathlib.Core.Path.{subst}
use zygote.Common.{
  ℕ, Bool, true, false, Option, none, [], ◌∷◌, Bytes, codes, ℤ, Outcome, returned, ◌≡◌, refl,
}
use zygote.Errors.{Err}
use zygote.Paths.{join_path}
use zygote.Cert.{
  System, CertService, Stat, present, absent, stat_failed, ensure_dir, dir_found, encoded, in_dir,
  ca_dir_path, ca_dir, ca_key_path, ca_path, path_exists, is_found,
}
use zygote.Cert.Authority.{
  write_key, write_cert, generate_ca, unless_there, make_ca_cert, serial_failed,
}
use zygote.Cert.Laws.{
  Honest, After, or_stop-After, or_return-After, bind-After, returned-After, Present, encoded-After,
  in_dir-path,
}

module _ {W : Type 0} (y : System W) (c : CertService) (honest : Honest y) where
  -- A key that was written is there, and stays while what follows keeps it.
  write_key-After :
      (path : Bytes) (key : ℕ) (next : W → Outcome (W × Option Err)) (w : W)
      → ((v : W) → Present y path v → After (Present y path) (next v))
      → After (Present y path) (write_key y c path key next w)
  unfolding write_key
  write_key-After path key next w after =
      or_stop-After y (Present y path) (Present y path) _ (y.create path w) (honest.created path w)
        (λ v hv.
          or_return-After y (Present y path) (Present y path) _ (v, y.marshal_key key) hv
            (λ bytes u hu.
              encoded-After y path (Present y path) path _ bytes next u honest hu after))

  -- A file of a certificate is created before what follows it.
  write_cert-After :
      (q path der : Bytes) (next : W → Outcome (W × Option Err)) (w : W)
      → ((v : W) → After (Present y q) (next v))
      → After (Present y q) (write_cert y c path der next w)
  unfolding write_cert encoded
  write_cert-After q path der next w after =
      or_stop-After y (λ _. Unit {0}) (Present y q) _ (y.create path w) (λ _. tt)
        (λ v _.
          or_stop-After y (λ _. Unit {0}) (Present y q) _ (y.encode path _ der v) (λ _. tt)
            (λ u _. after (y.close path u)))

  generate_ca-After :
      (expires_at : ℤ) (path : Bytes) (w : W)
      → After (Present y path) (generate_ca y c expires_at path w)
  unfolding generate_ca
  generate_ca-After expires_at path w =
      let Any : W → Type 0 = λ _. Unit {0} in
      or_return-After y Any (Present y path) _ (y.generate_key w) tt (λ key v _.
        or_return-After y Any (Present y path) _ (serial_failed (y.random_serial v)) tt
          (λ serial u _.
            or_return-After y Any (Present y path) _ (y.create_certificate _ _ key key u) tt
              (λ der t _. bind-After (Present y path) (ca_path y c t) _ (λ r _.
                write_cert-After path r.1 der _ r.0 (λ s.
                  write_key-After path key _ s (λ v' h. returned-After (Present y path) v' h))))))

  is_found-true : (s : Stat) → is_found y s ≡ returned true → s ≡ present
  unfolding is_found
  is_found-true present h = refl
  is_found-true absent h = cc
  is_found-true (stat_failed e) h = cc

  unless_there-After :
      (expires_at : ℤ) (path : Bytes) (w : W) (b : Bool)
      → path_exists y path w ≡ returned b
      → After (Present y path) (unless_there y c expires_at path w b)
  unfolding unless_there path_exists
  unless_there-After expires_at path w true found =
      returned-After (Present y path) w (is_found-true (y.stat path w) found)
  unless_there-After expires_at path w false found = generate_ca-After expires_at path w

  make_ca_cert-Present :
      (expires_at : ℤ) (w : W)
      → After
          (Present y (join_path (ca_dir_path y c ∷ codes "ca_key.pem" ∷ [])))
          (make_ca_cert y c expires_at w)
  unfolding make_ca_cert ca_key_path ca_dir
  make_ca_cert-Present expires_at w =
      bind-After (Present y (join_path (ca_dir_path y c ∷ codes "ca_key.pem" ∷ [])))
        (ca_key_path y c w) _
        (λ r e. bind-After _ (path_exists y r.1 r.0) _ (λ b e'.
          subst (λ p. After (Present y p) (unless_there y c expires_at r.1 r.0 b))
            (in_dir-path y c (codes "ca_key.pem") (ca_dir_path y c) w r e)
            (unless_there-After expires_at r.1 r.0 b e')))

  -- Once a root certificate was made, or found, making it again changes nothing, whatever its date of
  -- expiry is: the key of the authority is kept. This is for a file system that keeps what was written,
  -- and where the directory of a file that is there is there.
  pub make_ca_cert-again :
      (expires_at later : ℤ) (w v : W)
      → ((u : W)
          → Present y (join_path (ca_dir_path y c ∷ codes "ca_key.pem" ∷ [])) u
          → Present y (ca_dir_path y c) u)
      → make_ca_cert y c expires_at w ≡ returned (v, none)
      → make_ca_cert y c later v ≡ returned (v, none)
  unfolding make_ca_cert ca_key_path ca_dir in_dir ensure_dir dir_found path_exists is_found
      unless_there After
  make_ca_cert-again expires_at later w v parent h =
      let key : y.stat (join_path (ca_dir_path y c ∷ codes "ca_key.pem" ∷ [])) v ≡ present =
        make_ca_cert-Present expires_at w v h in
      rw (parent v key, key) refl
