-- ===== src/Remote.antt =====
-- lib/cluster/remote/remote.go: commands and files of a remote host, over SSH. The package
-- golang.org/x/crypto/ssh is a parameter, with the local files and the network.
pub mod Copy
pub mod Dial
pub mod Log
pub mod Released
pub mod Requests
pub mod Copied
pub mod Listing
use zygote.Common.{
  ℕ, Option, none, some, List, [], ◌∷◌, ◌++◌, if◌then◌else◌, Bytes, codes, ℤ, pos, Result, ok, err,
}
use zygote.Strings.{bytes_eq, trim_space, split}
use zygote.Strconv.{itoa}
use zygote.Errors.{Err, errorf, error_text}

-- A session and an open local file are known by numbers.
abbrev pub Session : Type 0
Session = ℕ

abbrev pub File : Type 0
File = ℕ

-- The error of a command that ran: an `ssh.ExitError` with its status and text, or another.
pub data RunError : Type 0 where
  exit_error : ℤ → Bytes → RunError
  run_failed : Err → RunError

pub record Ran : Type 0 where
  pub stdout : Bytes
  pub stderr : Bytes
  pub error : Option RunError

-- The client of a host, and the local files. `write_stdin` and `send_file` are `io.Copy` to the pipe of
-- a session, from memory and from a file; `save_stdout` is `io.Copy` from its output to a file.
pub record Ssh (W : Type 0) : Type 0 where
  pub new_session : W → W × Result Err Session
  pub close_session : Session → W → W
  pub run : Session → Bytes → W → W × Ran
  pub stdin_pipe : Session → W → W × Option Err
  pub stdout_pipe : Session → W → W × Option Err
  pub start : Session → Bytes → W → W × Option Err
  pub write_stdin : Session → Bytes → W → W × Option Err
  pub close_stdin : Session → W → W
  pub wait : Session → W → W × Option Err
  pub open_file : Bytes → W → W × Result Err File
  pub create_file : Bytes → W → W × Result Err File
  pub close_file : File → W → W
  pub mkdir_all : Bytes → W → W × Option Err
  pub send_file : File → Session → W → W × Option Err
  pub save_stdout : Session → File → W → W × Option Err

-- `fmt.Errorf("…%v", err)`: the text of the error is kept, not the error.
unfoldable pub failed : Bytes → Err → Err
unfolding error_text
failed text e = errorf (text ++ error_text e)

unfoldable pub run_error_text : RunError → Bytes
unfolding error_text
run_error_text (exit_error status text) = text
run_error_text (run_failed e) = error_text e

-- A deferred call, after the rest of the function.
unfoldable pub deferred {ℓ} : {W : Type 0} {A : Type ℓ} → (W → W) → W × A → W × A
deferred last (w, a) = (last w, a)

-- A step whose error is returned with a text, and what comes after it.
unfoldable pub then_do :
    {W : Type 0} → Bytes → (W → W × Option Err) → W × Option Err → W × Option Err
unfolding failed
then_do text next (w, none) = next w
then_do text next (w, some e) = (w, some (failed text e))

-- `CommandResult`.
pub record CommandResult : Type 0 where
  pub stdout : Bytes
  pub stderr : Bytes
  pub exit_code : ℤ

-- The parts of a listing that are not empty.
unfoldable pub entries : List Bytes → List Bytes
unfolding bytes_eq
entries [] = []
entries (p ∷ ps) = if bytes_eq p [] then entries ps else p ∷ entries ps

-- What `ListRemoteDir` makes of the output of `ls -1`.
unfoldable pub listing : Bytes → List Bytes
unfolding trim_space split entries bytes_eq
listing text =
    let output = trim_space text in if bytes_eq output [] then [] else entries (split b'\n' output)

unfoldable pub no_result : CommandResult
no_result = record { stdout = []; stderr = []; exit_code = pos 0 }

-- The result of a command that was run, and its error.
unfoldable pub command_result : Bytes → Ran → CommandResult × Option Err
unfolding run_error_text error_text itoa
command_result command r =
    let result : CommandResult = record {
      stdout = r.stdout;
      stderr = r.stderr;
      exit_code = pos 0;
    } in
    elim r.error [
      | none ↦ (result, none)
      | some (exit_error status text) ↦ (
        record result { exit_code = status },
        some (
            errorf (
              codes "command '"
              ++ command
              ++ codes "' failed with exit code "
              ++ itoa status
              ++ codes ": "
              ++ r.stderr)),
      )
      | some (run_failed e) ↦ (
        result,
        some (
            errorf (codes "failed to execute command '" ++ command ++ codes "': " ++ error_text e)),
      )
    ]

module _ {W : Type 0} (c : Ssh W) where
  -- A session that is closed at the end, or the error that none was made.
  unfoldable pub with_session {ℓ} :
      {A : Type ℓ} → (Err → A) → (Session → W → W × A) → W × Result Err Session → W × A
  with_session refused body (w, err e) = (w, refused e)
  with_session refused body (w, ok s) = deferred (c.close_session s) (body s w)

  unfoldable pub made : W × Ran → W × Option Err
  made (w, r) = elim r.error [
    | none ↦ (w, none)
    | some e ↦ (w, some (errorf (codes "failed to create directory: " ++ run_error_text e)))
  ]

  -- `CreateRemoteDir`.
  unfoldable pub create_remote_dir : Bytes → W → W × Option Err
  create_remote_dir path w =
      with_session (λ e. some (failed (codes "failed to create session for mkdir: ") e))
        (λ s v. made (c.run s (codes "mkdir -p " ++ path) v)) (c.new_session w)

  unfoldable pub ran_command : Bytes → W × Ran → W × (CommandResult × Option Err)
  ran_command command (w, r) = (w, command_result command r)

  -- `RunCommand`.
  unfoldable pub run_command : Bytes → W → W × (CommandResult × Option Err)
  run_command command w =
      with_session (λ e. (no_result, some (failed (codes "failed to create session: ") e)))
        (λ s v. ran_command command (c.run s command v)) (c.new_session w)

  -- What a command printed, or its error after a text and the path.
  unfoldable pub printed {ℓ} :
      {A : Type ℓ} → (Bytes → A) → Bytes → Bytes → W × Ran → W × Result Err A
  printed use_output text path (w, r) = elim r.error [
    | none ↦ (w, ok (use_output r.stdout))
    | some e ↦ (w, err (errorf (text ++ path ++ codes ": " ++ run_error_text e)))
  ]

  -- `ReadFileFromRemote`.
  unfoldable pub read_file_from_remote : Bytes → W → W × Result Err Bytes
  read_file_from_remote path w =
      with_session (λ e. err (failed (codes "failed to create session: ") e))
        (λ s v.
          printed (λ text. text) (codes "failed to read file ") path
            (c.run s (codes "cat " ++ path) v))
        (c.new_session w)

  -- `ListRemoteDir`.
  unfoldable pub list_remote_dir : Bytes → W → W × Result Err (List Bytes)
  list_remote_dir path w =
      with_session (λ e. err (failed (codes "failed to create session: ") e))
        (λ s v.
          printed listing (codes "failed to list directory ") path
            (c.run s (codes "ls -1 " ++ path) v))
        (c.new_session w)
