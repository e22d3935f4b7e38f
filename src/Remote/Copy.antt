-- ===== src/Remote/Copy.antt =====
-- remote.go: copying a file to the remote host, from memory and from a local file, and back.
use zygote.Common.{Option, none, some, ◌++◌, Bytes, codes, Result, ok, err}
use zygote.Errors.{Err}
use zygote.Paths.{dir}
use zygote.Remote.{Session, File, Ssh, failed, deferred, then_do, with_session, create_remote_dir}

module _ {W : Type 0} (c : Ssh W) where
  -- What follows a step whose error is returned as it is.
  unfoldable pub if_made : (W → W × Option Err) → W × Option Err → W × Option Err
  if_made next (w, none) = next w
  if_made next (w, some e) = (w, some e)

  unfoldable pub waited : Session → Bytes → W → W × Option Err
  waited s text w = then_do text (λ v. (v, none)) (c.wait s w)

  -- From the start of `cat > path` on: `write` sends the content.
  unfoldable pub streamed :
      Session → Bytes → Bytes → Bytes → (W → W × Option Err) → W → W × Option Err
  streamed s path write_text wait_text write w =
      then_do (codes "failed to start command: ")
        (λ v. then_do write_text (λ u. waited s wait_text (c.close_stdin s u)) (write v))
        (c.start s (codes "cat > " ++ path) w)

  -- The body of both copies to the remote host, in a session of its own beside that of the directory.
  unfoldable pub sent_over :
      Bytes → Bytes → Bytes → (Session → W → W × Option Err) → Session → W → W × Option Err
  sent_over path write_text wait_text write s w =
      if_made
        (λ v.
          then_do (codes "failed to create stdin pipe: ")
            (λ u. deferred (c.close_stdin s) (streamed s path write_text wait_text (write s) u))
            (c.stdin_pipe s v))
        (create_remote_dir c (dir path) w)

  -- `CopyFileToRemote`.
  unfoldable pub copy_file_to_remote : Bytes → Bytes → W → W × Option Err
  copy_file_to_remote content path w =
      with_session c (λ e. some (failed (codes "failed to create session: ") e))
        (sent_over path (codes "failed to write content: ") (codes "command failed: ")
          (λ s. c.write_stdin s content))
        (c.new_session w)

  -- A local file that is closed at the end, or the error that it was not opened.
  unfoldable pub with_file :
      Bytes → (File → W → W × Option Err) → W × Result Err File → W × Option Err
  with_file text body (w, err e) = (w, some (failed text e))
  with_file text body (w, ok f) = deferred (c.close_file f) (body f w)

  -- `CopyLocalToRemote`.
  unfoldable pub copy_local_to_remote : Bytes → Bytes → W → W × Option Err
  copy_local_to_remote local path w =
      with_file (codes "failed to open local file " ++ local ++ codes ": ")
        (λ f v.
          with_session c (λ e. some (failed (codes "failed to create session: ") e))
            (sent_over path (codes "failed to stream content to remote: ")
              (codes "remote command failed: ") (c.send_file f))
            (c.new_session v))
        (c.open_file local w)

  -- From the pipe of the output on.
  unfoldable pub received : Bytes → Session → File → W → W × Option Err
  received path s f w =
      then_do (codes "failed to create stdout pipe: ")
        (λ v.
          then_do (codes "failed to start command: ")
            (λ u.
              then_do (codes "failed to stream content from remote: ")
                (waited s (codes "remote command failed: ")) (c.save_stdout s f u))
            (c.start s (codes "cat " ++ path) v))
        (c.stdout_pipe s w)

  -- `CopyRemoteToLocal`.
  unfoldable pub copy_remote_to_local : Bytes → Bytes → W → W × Option Err
  copy_remote_to_local path local w =
      with_session c (λ e. some (failed (codes "failed to create session: ") e))
        (λ s v.
          then_do (codes "failed to create local directory " ++ dir local ++ codes ": ")
            (λ u.
              with_file (codes "failed to create local file " ++ local ++ codes ": ")
                (received path s) (c.create_file local u))
            (c.mkdir_all (dir local) v))
        (c.new_session w)
