-- ===== src/Cert/Laws/Ensured.antt =====
-- cert.go: `ensureCert` makes a certificate that is missing, and only then.
use mathlib.Core.Path.{subst}
use zygote.Common.{
  Option, none, some, [], ◌∷◌, Bytes, returned, ◌≡◌, ap, refl, sym, bind-returned, ◌∙◌, ◌≢◌,
}
use zygote.Errors.{Err}
use zygote.Cert.{
  System, CertService, Stat, present, absent, stat_failed, in_dir, ensure_dir, dir_found,
  cert_dir_path, cert_dir, cert_path,
}
use zygote.Cert.Sign.{sign}
use zygote.Cert.Service.{ensure_cert, cert_found, generated, fatal_if_err}
use zygote.Cert.Laws.{Honest, After, Present, in_dir_again, in_dir-path}
use zygote.Cert.Laws.Signed.{cert_file, sign-Present}

module _ {W : Type 0} (y : System W) (c : CertService) (honest : Honest y) where
  fatal-none :
      (text : Bytes) (r : W × Option Err) (v : W)
      → fatal_if_err y text r ≡ returned v
      → r ≡ (v, none)
  unfolding fatal_if_err
  fatal-none text (w, none) v h = cc
  fatal-none text (w, some e) v h = cc

  generated-Present :
      (name : Bytes) (w v : W)
      → generated y c name w ≡ returned v
      → Present y (cert_file y c honest name) v
  unfolding generated After
  generated-Present name w v h =
      let (r, signed, e) = bind-returned (sign y c (name ∷ []) _ _ [] w) _ v h in
      sign-Present y c honest name _ _ [] w v (signed ∙ ap returned (fatal-none _ r v e))

  kept :
      (name : Bytes) (v : W) (s : Stat)
      → s ≢ absent
      → y.stat (cert_file y c honest name) v ≡ s
      → cert_path y c name v ≡ returned (v, cert_file y c honest name)
      → ensure_cert y c name v ≡ returned v
  unfolding ensure_cert cert_found
  kept name v present there e path = rw (path, e)
  kept name v (stat_failed x) there e path = rw (path, e)
  kept name v absent there e path = absurd (there refl)

  cert_path-there :
      (name : Bytes) (v : W)
      → Present y (cert_dir_path y c name) v
      → cert_path y c name v ≡ returned (v, cert_file y c honest name)
  unfolding cert_path cert_dir in_dir ensure_dir dir_found
  cert_path-there name v h = rw h

  cert_found-again :
      (name : Bytes) (w v : W) (s : Stat)
      → y.stat (cert_file y c honest name) w ≡ s
      → cert_found y c name w s ≡ returned v
      → cert_path y c name w ≡ returned (w, cert_file y c honest name)
      → ((u : W) → Present y (cert_file y c honest name) u → Present y (cert_dir_path y c name) u)
      → ensure_cert y c name v ≡ returned v
  unfolding cert_found
  cert_found-again name w v present found h path parent =
      let same : w ≡ v = cc in
      subst (λ u. ensure_cert y c name u ≡ returned u) same
        (kept name w present (λ e. cc) found path)
  cert_found-again name w v (stat_failed x) found h path parent =
      let same : w ≡ v = cc in
      subst (λ u. ensure_cert y c name u ≡ returned u) same
        (kept name w (stat_failed x) (λ e. cc) found path)
  cert_found-again name w v absent found h path parent =
      let there : Present y (cert_file y c honest name) v = generated-Present name w v h in
      kept name v present (λ e. cc) there (cert_path-there name v (parent v there))

  ensured :
      (name : Bytes) (w v : W) (r : W × Bytes)
      → cert_path y c name w ≡ returned r
      → cert_found y c name r.0 (y.stat r.1 r.0) ≡ returned v
      → ((u : W) → Present y (cert_file y c honest name) u → Present y (cert_dir_path y c name) u)
      → ensure_cert y c name v ≡ returned v
  unfolding cert_path cert_dir
  ensured name w v r path h parent =
      let file : r.1 ≡ cert_file y c honest name =
        in_dir-path y c _ (cert_dir_path y c name) w r path in
      cert_found-again name r.0 v (y.stat r.1 r.0) (ap (λ p. y.stat p r.0) (sym file)) h
        (in_dir_again y honest c _ (cert_dir_path y c name) w r path) parent

  -- When the certificate of a name was made sure of, making sure of it again changes nothing: it is
  -- signed once. This is for a file system that keeps what was written, and where the directory of a
  -- file that is there is there.
  pub ensure_cert-again :
      (name : Bytes) (w v : W)
      → ((u : W) → Present y (cert_file y c honest name) u → Present y (cert_dir_path y c name) u)
      → ensure_cert y c name w ≡ returned v
      → ensure_cert y c name v ≡ returned v
  unfolding ensure_cert
  ensure_cert-again name w v parent h =
      let (r, path, e) = bind-returned (cert_path y c name w) _ v h in
      ensured name w v r path e parent
