-- ===== src/Shell/Vault.antt =====
-- shell.go: secrets that gpg encrypts, the vault of a repository, and the script that is written for
-- it. The files, TOML and gpg are parameters.
use zygote.Common.{
  Bool, true, false, Option, none, some, List, [], ◌∷◌, ◌++◌, if◌then◌else◌, Bytes, codes, Outcome,
  returned, exited, ◌>>=◌, Result, ok, err,
}
use zygote.Strings.{bytes_eq}
use zygote.Errors.{Err, errorf, error_text}
use zygote.Cluster.{Env, or_default}
use zygote.Paths.{join_path}
use zygote.Cert.{Stat, present, absent, stat_failed}
use zygote.Shell.Names.{repo_full_name, random_string}

-- `stat`, `read_file`, `mkdir_all` and `write_file` are those of os, `default_key` reads the key from
-- a text of TOML, and the others are the steps of a command: its input, and its output at the end.
pub record Secrets (W : Type 0) : Type 0 where
  pub stat : Bytes → W → Stat
  pub read_file : Bytes → W → Result Err Bytes
  pub mkdir_all : Bytes → W → W × Option Err
  pub write_file : Bytes → Bytes → W → W × Option Err
  pub default_key : Bytes → Result Err Bytes
  pub run : List Bytes → W → W × Option Err
  pub stdin_pipe : List Bytes → W → W × Option Err
  pub start : List Bytes → W → W × Option Err
  pub write_stdin : Bytes → W → W × Option Err
  pub wait : W → W × Result Err Bytes

-- The arguments of gpg.
unfoldable pub encrypt_command : Bytes → Bytes → List Bytes
encrypt_command key file =
    codes "gpg" ∷ codes "-e" ∷ codes "-r" ∷ key ∷ codes "--armor" ∷ codes "-o" ∷ file ∷ []

failed : Bytes → Err → Err
failed text e = errorf (text ++ error_text e)

module _ {W : Type 0} (g : Secrets W) (env : Env) where
  unfoldable pub secrets_dir : Bytes
  secrets_dir = join_path (env (codes "HOME") ∷ codes ".blueprint" ∷ codes "secrets" ∷ [])

  config_key : Result Err Bytes → Result Err Bytes
  config_key (err e) = err e
  config_key (ok doc) = g.default_key doc

  -- `ReadConfig`, of which the default key is used.
  unfoldable pub read_config : W → Result Err Bytes
  unfolding config_key
  read_config w = config_key (
      g.read_file
        (join_path
          (env (codes "HOME") ∷ codes ".config" ∷ codes "zygote" ∷ codes "config.toml" ∷ []))
        w)

  -- The steps that both ways to encrypt start with; `next` is given the command.
  with_dir {ℓ} :
      {A : Type ℓ} → (Err → A) → (List Bytes → W → W × A) → Bytes → Bytes → W × Option Err → W × A
  unfolding failed encrypt_command secrets_dir
  with_dir refused next filename key (w, some e) =
      (w, refused (failed (codes "failed to create secrets directory: ") e))
  with_dir refused next filename key (w, none) =
      next (encrypt_command key (join_path (secrets_dir ∷ (filename ++ codes ".asc") ∷ []))) w

  after_config {ℓ} :
      {A : Type ℓ}
      → (Err → A)
      → (List Bytes → W → W × A)
      → Bytes
      → Bytes
      → W
      → Result Err Bytes
      → W × A
  unfolding failed with_dir or_default
  after_config refused next filename gpg_key w (err e) =
      (w, refused (failed (codes "failed to read config: ") e))
  after_config refused next filename gpg_key w (ok default) =
      with_dir refused next filename (or_default gpg_key default) (g.mkdir_all secrets_dir w)

  unfoldable pub encrypting {ℓ} :
      {A : Type ℓ} → (Err → A) → (List Bytes → W → W × A) → Bytes → Bytes → W → W × A
  unfolding after_config bytes_eq
  encrypting refused next filename gpg_key w =
      if bytes_eq filename []
      then (w, refused (errorf (codes "please provide a file to encrypt")))
      else after_config refused next filename gpg_key w (read_config w)

  unfoldable pub ended : Bytes → W × Option Err → W × Option Err
  unfolding failed
  ended text (w, none) = (w, none)
  ended text (w, some e) = (w, some (failed text e))

  -- `EncryptFile`.
  unfoldable pub encrypt_file : Bytes → Bytes → W → W × Option Err
  unfolding encrypting ended
  encrypt_file = encrypting some (λ argv w. ended (codes "encryption failed: ") (g.run argv w))

  stopped : Bytes → (W → W × Result Err Bytes) → W × Option Err → W × Result Err Bytes
  unfolding failed
  stopped text next (w, none) = next w
  stopped text next (w, some e) = (w, err (failed text e))

  collected : W × Result Err Bytes → W × Result Err Bytes
  unfolding failed
  collected (w, ok out) = (w, ok out)
  collected (w, err e) = (w, err (failed (codes "failed to wait: ") e))

  -- `EncryptContent`, with the steps of the command.
  unfoldable pub encrypt_content : Bytes → Bytes → Bytes → W → W × Result Err Bytes
  unfolding encrypting stopped collected
  encrypt_content content = encrypting err (λ argv w.
      stopped (codes "failed to create stdin: ")
        (λ v.
          stopped (codes "failed to start: ")
            (λ u.
              stopped (codes "failed to write to stdin: ") (λ t. collected (g.wait t))
                (g.write_stdin content u))
            (g.start argv v))
        (g.stdin_pipe argv w))

  -- `DecryptFile`.
  unfoldable pub decrypt_file : Bytes → W → W × Option Err
  unfolding ended bytes_eq secrets_dir
  decrypt_file filename w =
      let file = join_path (secrets_dir ∷ (filename ++ codes ".asc") ∷ []) in
      if bytes_eq filename []
      then (w, some (errorf (codes "please provide a file to decrypt")))
      else ended (codes "decryption failed: ")
          (g.run (codes "gpg" ∷ codes "--quiet" ∷ codes "-d" ∷ file ∷ []) w)

  file_there : Stat → Outcome Bool
  file_there present = returned true
  file_there absent = returned false
  file_there (stat_failed e) = exited (codes "Checking path")

  vault_encrypted : W × Result Err Bytes → W × Option Err
  vault_encrypted (w, ok out) = (w, none)
  vault_encrypted (w, err e) = (w, some e)

  vault_made : Bytes → W → Bool → Result Err Bytes → Outcome (W × Option Err)
  unfolding vault_encrypted encrypt_content
  vault_made name w there (err e) = exited (codes "Error generating random string")
  vault_made name w true (ok s) = returned (w, none)
  vault_made name w false (ok s) =
      returned (vault_encrypted (encrypt_content s (name ++ codes ".yaml") [] w))

  -- `CreateRepoVault`, from the current directory and the random bytes.
  unfoldable pub create_repo_vault :
      Result Err Bytes → Result Err Bytes → W → Outcome (W × Option Err)
  unfolding file_there vault_made repo_full_name random_string
  create_repo_vault cwd read w = do
    name ← repo_full_name cwd
    let file = join_path (
        env (codes "HOME")
        ∷ codes ".blueprint"
        ∷ codes "secrets"
        ∷ (name ++ codes ".vault" ++ codes ".asc")
        ∷ [])
    there ← file_there (g.stat file w)
    vault_made name w there (random_string read)

  script_written : Bytes → Bytes → W × Option Err → W × Option Err
  unfolding failed ended
  script_written dir text (w, some e) =
      (w, some (failed (codes "failed to create scripts directory: ") e))
  script_written dir text (w, none) =
      ended (codes "failed to write vault_pass script: ")
        (g.write_file (join_path (dir ∷ codes "vault_pass" ∷ [])) text w)

  -- `WriteScripts`, with the text of the script.
  unfoldable pub write_scripts : Bytes → W → W × Option Err
  unfolding script_written
  write_scripts text w =
      let dir =
        join_path (env (codes "HOME") ∷ codes ".config" ∷ codes "zygote" ∷ codes "scripts" ∷ []) in
      script_written dir text (g.mkdir_all dir w)
