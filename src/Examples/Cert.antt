-- ===== src/Examples/Cert.antt =====
-- Tests of Cert, and its theorems at concrete inputs.
use zygote.Common.{
  Bool, true, false, ◌||◌, none, some, List, [], ◌∷◌, ◌++◌, Bytes, codes, pos, ok, returned, ◌≡◌,
  refl, arith, if◌then◌else◌,
}
use zygote.Strings.{starts_with, bytes_eq}
use zygote.Cert.{
  System, CertService, Stat, present, absent, cert_service, ca_dir_path, cert_dir_path, Template,
}
use zygote.Paths.{join_path}
use zygote.Cert.Authority.{make_ca_cert}
use zygote.Cert.Sign.{sign}
use zygote.Cert.Service.{ensure_cert}
use zygote.Cert.Laws.{Honest}
use zygote.Cert.Laws.Again.{make_ca_cert-again}
use zygote.Cert.Laws.Ensured.{ensure_cert-again}
use zygote.Cert.Laws.Signed.{cert_file}

-- The paths that were made, and what starts them.
abbrev found : Bytes → List Bytes → Bool
found p [] = false
found p (x ∷ w) = starts_with x p || found p w

abbrev to_stat : Bool → Stat
to_stat true = present
to_stat false = absent

-- A file system whose state is the list of the paths that were made, and a trivial cryptography.
abbrev disk : System (List Bytes)
disk = record {
  stat = λ p w. to_stat (found p w);
  mkdir_all = λ p w. (p ∷ w, none);
  read_file = λ p w. ok (codes "pem");
  create = λ p w. (p ∷ w, none);
  encode = λ p kind bytes w. (w, none);
  close = λ p w. w;
  generate_key = λ w. (w, ok 1);
  random_serial = λ w. (w, ok 9);
  create_certificate = λ t issuer subject signer w. (w, ok (codes "der"));
  marshal_key = λ k. ok (codes "key");
  pem_decode = λ pem. some pem;
  parse_key = λ b. ok 4;
  parse_certificate = λ b. ok 5;
  parse_ip = λ text. if bytes_eq text (codes "127.0.0.1") then some 6 else none;
  now = λ w. pos 100;
  next_year = λ w. pos 465;
  run = λ argv w. (w, none);
}

abbrev service : CertService
service = record { config_home = codes "/z" }

starts_with_self : (p : Bytes) → starts_with p p ≡ true
unfolding starts_with
starts_with_self [] = refl
starts_with_self (x ∷ p) = ground (arith, starts_with_self p)

starts_with_prefix : (x p q : Bytes) → starts_with x (p ++ q) ≡ true → starts_with x p ≡ true
unfolding starts_with
starts_with_prefix x [] q h = ground arith
starts_with_prefix [] (c ∷ p) q h = cc
starts_with_prefix (x ∷ s) (c ∷ p) q h = ground (arith, starts_with_prefix s p q)

found_more :
    (q p : Bytes) (w : List Bytes)
    → to_stat (found q w) ≡ present
    → to_stat (found q (p ∷ w)) ≡ present
found_more q p w h = ground arith

found_new : (p : Bytes) (w : List Bytes) → to_stat (found p (p ∷ w)) ≡ present
found_new p w = rw (starts_with_self p)

found_prefix :
    (p q : Bytes) (w : List Bytes)
    → to_stat (found (p ++ q) w) ≡ present
    → to_stat (found p w) ≡ present
found_prefix p q [] h = cc
found_prefix p q (x ∷ w) h = ground (arith, starts_with_prefix x p q, found_prefix p q w)

abbrev disk-Honest : Honest disk
disk-Honest = record {
  created = λ p w h. found_new p w;
  dir_made = λ p w h. found_new p w;
  create_keeps = λ q p w h. found_more q p w h;
  mkdir_all_keeps = λ q p w h. found_more q p w h;
  encode_keeps = λ q p kind bytes w h. h;
  close_keeps = λ q p w h. h;
  run_keeps = λ q argv w h. h;
}

abbrev ca_files : List Bytes
ca_files =
    codes "/z/certs/ca/ca_key.pem" ∷ codes "/z/certs/ca/ca_cert.pem" ∷ codes "/z/certs/ca" ∷ []

make_ca_cert_once : make_ca_cert disk service (pos 5) [] ≡ returned (ca_files, none)
unfolding make_ca_cert zygote.Cert.ca_key_path zygote.Cert.in_dir zygote.Cert.ca_dir
    zygote.Cert.ensure_dir zygote.Cert.dir_found zygote.Cert.made zygote.Cert.path_exists
    zygote.Cert.is_found starts_with join_path ca_dir_path zygote.Cert.Authority.unless_there
    zygote.Cert.Authority.generate_ca zygote.Cert.or_return zygote.Cert.Authority.serial_failed
    zygote.Cert.ca_path zygote.Cert.Authority.write_cert zygote.Cert.or_stop zygote.Cert.encoded
    zygote.Cert.Authority.write_key
make_ca_cert_once = refl

ca_parent :
    (u : List Bytes)
    → disk.stat (join_path (ca_dir_path disk service ∷ codes "ca_key.pem" ∷ [])) u ≡ present
    → disk.stat (ca_dir_path disk service) u ≡ present
unfolding join_path ca_dir_path
ca_parent u h = found_prefix (codes "/z/certs/ca") (codes "/ca_key.pem") u h

make_ca_cert-again_example : make_ca_cert disk service (pos 6) ca_files ≡ returned (ca_files, none)
make_ca_cert-again_example =
    make_ca_cert-again disk service disk-Honest (pos 5) (pos 6) [] ca_files ca_parent
      make_ca_cert_once

abbrev cert_files : List Bytes
cert_files =
    codes "/z/certs/functions/fn/fn_key.pem"
    ∷ codes "/z/certs/functions/fn/fn_cert.pem"
    ∷ codes "/z/certs/ca"
    ∷ codes "/z/certs/functions/fn"
    ∷ []

ensure_cert_once : ensure_cert disk service (codes "fn") [] ≡ returned cert_files
unfolding ensure_cert zygote.Cert.cert_path zygote.Cert.in_dir zygote.Cert.cert_dir
    zygote.Cert.ensure_dir zygote.Cert.dir_found zygote.Cert.made zygote.Cert.Service.cert_found
    starts_with join_path cert_dir_path zygote.Cert.Service.generated sign zygote.Cert.ca_key_path
    zygote.Cert.ca_dir ca_dir_path zygote.Cert.or_return zygote.Cert.Sign.block_of
    zygote.Cert.ca_path zygote.Cert.Sign.sign_with zygote.Cert.Authority.serial_failed
    zygote.Cert.Sign.parse_ips zygote.Cert.Sign.certify zygote.Cert.Sign.first_name
    zygote.Cert.Sign.write_files zygote.Cert.Authority.write_cert zygote.Cert.or_stop
    zygote.Cert.encoded zygote.Cert.key_path zygote.Cert.Authority.write_key zygote.Cert.Sign.export
    zygote.Cert.Sign.exported zygote.Cert.Service.fatal_if_err
ensure_cert_once = refl

cert_parent :
    (u : List Bytes)
    → disk.stat (cert_file disk service disk-Honest (codes "fn")) u ≡ present
    → disk.stat (cert_dir_path disk service (codes "fn")) u ≡ present
unfolding join_path cert_dir_path
cert_parent u h = found_prefix (codes "/z/certs/functions/fn") (codes "/fn_cert.pem") u h

ensure_cert-again_example : ensure_cert disk service (codes "fn") cert_files ≡ returned cert_files
ensure_cert-again_example =
    ensure_cert-again disk service disk-Honest (codes "fn") [] cert_files cert_parent
      ensure_cert_once
