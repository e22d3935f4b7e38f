-- ===== src/Cert.antt =====
-- lib/cluster/cert/cert.go: the certificates of a node and of the authority that signs them. The
-- cryptography, the files and openssl are parameters; messages to the log are left out.
pub mod Authority
pub mod Sign
pub mod Service
pub mod Laws
use zygote.Common.{
  ℕ, Bool, true, false, Option, none, some, List, [], ◌∷◌, ◌++◌, if◌then◌else◌, Bytes, codes, ℤ,
  Outcome, returned, exited, ◌>>=◌, Result, ok, err,
}
use zygote.Strings.{bytes_eq, contains}
use zygote.Errors.{Err, error_text}
use zygote.Cluster.{Env}
use zygote.Paths.{join_path}

-- What `os.Stat` finds.
pub data Stat : Type 0 where
  present : Stat
  absent : Stat
  stat_failed : Err → Stat

-- A key, a parsed certificate and an address are known by numbers.
abbrev pub Key : Type 0
Key = ℕ

-- The fields of `x509.Certificate` that the program sets.
pub record Template : Type 0 where
  pub serial_number : ℕ
  pub common_name : Bytes
  pub not_before : ℤ
  pub not_after : ℤ
  pub is_ca : Bool
  pub dns_names : List Bytes
  pub ip_addresses : List ℕ

-- Who signs: the certificate itself, or a parsed one.
pub data Issuer : Type 0 where
  itself : Issuer
  parsed : ℕ → Issuer

-- The files, the cryptography and the commands. A file that is open for writing goes by its path.
pub record System (W : Type 0) : Type 0 where
  pub stat : Bytes → W → Stat
  pub mkdir_all : Bytes → W → W × Option Err
  pub read_file : Bytes → W → Result Err Bytes
  pub create : Bytes → W → W × Option Err
  pub encode : Bytes → Bytes → Bytes → W → W × Option Err
  pub close : Bytes → W → W
  pub generate_key : W → W × Result Err Key
  pub random_serial : W → W × Result Err ℕ
  pub create_certificate : Template → Issuer → Key → Key → W → W × Result Err Bytes
  pub marshal_key : Key → Result Err Bytes
  pub pem_decode : Bytes → Option Bytes
  pub parse_key : Bytes → Result Err Key
  pub parse_certificate : Bytes → Result Err ℕ
  pub parse_ip : Bytes → Option ℕ
  pub now : W → ℤ
  pub next_year : W → ℤ
  pub run : List Bytes → W → W × Option Err

-- `CertService`.
pub record CertService : Type 0 where
  pub config_home : Bytes

in_home : Bytes → CertService
unfolding join_path
in_home home = record { config_home = join_path (home ∷ codes ".config" ∷ codes "zygote" ∷ []) }

of_home : Env → Bytes → CertService
unfolding bytes_eq contains in_home
of_home env user_dir =
    let sudo_user = env (codes "SUDO_USER") in
    if contains user_dir (codes "root")
    then (if bytes_eq sudo_user [] then in_home user_dir else in_home (codes "/home/" ++ sudo_user))
    else in_home user_dir

at_home : Env → Result Err Bytes → Result Err CertService
unfolding of_home
at_home env (ok user_dir) = ok (of_home env user_dir)
at_home env (err e) = err e

-- `Cert`, from `os.UserHomeDir`.
unfoldable pub cert_service : Env → Result Err Bytes → Result Err CertService
unfolding at_home bytes_eq
cert_service env user_home_dir =
    let config_home = env (codes "ZYGOTE_CONFIG_HOME") in
    if bytes_eq config_home []
    then at_home env user_home_dir
    else ok (record { config_home = config_home })

module _ {W : Type 0} (y : System W) where
  unfoldable pub made : Bytes → W × Option Err → Outcome (W × Bytes)
  unfolding error_text
  made path (w, none) = returned (w, path)
  made path (w, some e) = exited (error_text e)

  unfoldable pub dir_found : Bytes → W → Stat → Outcome (W × Bytes)
  dir_found path w absent = made path (y.mkdir_all path w)
  dir_found path w present = returned (w, path)
  dir_found path w (stat_failed e) = returned (w, path)

  -- A directory that is made if it is not there.
  unfoldable pub ensure_dir : Bytes → W → Outcome (W × Bytes)
  ensure_dir path w = dir_found path w (y.stat path w)

  unfoldable pub is_found : Stat → Outcome Bool
  is_found present = returned true
  is_found absent = returned false
  is_found (stat_failed e) = exited (codes "Checking path")

  -- `utils.PathExists`.
  unfoldable pub path_exists : Bytes → W → Outcome Bool
  path_exists path w = is_found (y.stat path w)

  -- A call whose error is returned as it is, and what follows it.
  unfoldable pub or_return {ℓ} :
      {A : Type ℓ}
      → (A → W → Outcome (W × Option Err))
      → W × Result Err A
      → Outcome (W × Option Err)
  or_return next (w, ok a) = next a w
  or_return next (w, err e) = returned (w, some e)

  unfoldable pub or_stop :
      (W → Outcome (W × Option Err)) → W × Option Err → Outcome (W × Option Err)
  or_stop next (w, none) = next w
  or_stop next (w, some e) = returned (w, some e)

  -- A PEM block written to a file that was created: its type and its bytes.
  unfoldable pub encoded :
      Bytes → Bytes → Bytes → (W → Outcome (W × Option Err)) → W → Outcome (W × Option Err)
  encoded path kind bytes next w = or_stop (λ v. next (y.close path v)) (y.encode path kind bytes w)

  module _ (c : CertService) where
    -- `CaDir`, `CertDir`, and the names of the files in them.
    unfoldable pub ca_dir_path : Bytes
    unfolding join_path
    ca_dir_path = join_path (c.config_home ∷ codes "certs" ∷ codes "ca" ∷ [])

    unfoldable pub cert_dir_path : Bytes → Bytes
    unfolding join_path
    cert_dir_path name = join_path (c.config_home ∷ codes "certs" ∷ codes "functions" ∷ name ∷ [])

    unfoldable pub ca_dir : W → Outcome (W × Bytes)
    ca_dir = ensure_dir ca_dir_path

    unfoldable pub cert_dir : Bytes → W → Outcome (W × Bytes)
    cert_dir name = ensure_dir (cert_dir_path name)

    -- A file in a directory that was made sure of.
    unfoldable pub in_dir : Bytes → Outcome (W × Bytes) → Outcome (W × Bytes)
    in_dir file dir = dir >>= λ r. returned (r.0, join_path (r.1 ∷ file ∷ []))

    unfoldable pub ca_path : W → Outcome (W × Bytes)
    ca_path w = in_dir (codes "ca_cert.pem") (ca_dir w)

    unfoldable pub ca_key_path : W → Outcome (W × Bytes)
    ca_key_path w = in_dir (codes "ca_key.pem") (ca_dir w)

    unfoldable pub cert_path : Bytes → W → Outcome (W × Bytes)
    cert_path name w = in_dir (name ++ codes "_cert.pem") (cert_dir name w)

    unfoldable pub key_path : Bytes → W → Outcome (W × Bytes)
    key_path name w = in_dir (name ++ codes "_key.pem") (cert_dir name w)
