-- ===== src/Remote/Released/Copies.antt =====
-- remote.go: the copies close what they open.
use zygote.Common.{ℕ, Option, none, List, ◌∷◌, ◌++◌, Bytes, codes, refl}
use zygote.Errors.{Err}
use zygote.Paths.{dir}
use zygote.Remote.{Session, Ssh, deferred}
use zygote.Remote.Copy.{
  waited, streamed, sent_over, copy_file_to_remote, copy_local_to_remote, received,
  copy_remote_to_local,
}
use zygote.Remote.Log
use zygote.Remote.Log.{
  Event, Logged, Resource, logged, note_call, note_opened, note_run, still_open, release, same,
  acquired, session, file, released, stdin_closed,
}
use zygote.Remote.Released.{
  Even, Releases, note-Even, then_do-Even, if_made-Even, session-Even, file-Even,
  create_remote_dir-Releases,
}

module _ {W : Type 0} (c : Ssh W) where
  -- The pipe that is closed is no resource of its own.
  after_stdin {ℓ} :
      {A : Type ℓ} (s : Session) (log : List Event) (r : Logged W × A)
      → Even (stdin_closed s ∷ log) r
      → Even log r
  unfolding Even still_open
  after_stdin s log r h = h

  stdin-Even :
      (s : Session) (log : List Event) (r : Logged W × Option Err)
      → Even log r
      → Even log (deferred ((logged c).close_stdin s) r)
  unfolding Even deferred still_open
  stdin-Even s log (p, e) h = h

  done-Releases : Releases {A = Option Err} (λ (p : Logged W). (p, none))
  unfolding Even
  done-Releases p = refl

  waited-Releases : (s : Session) (text : Bytes) → Releases (waited (logged c) s text)
  unfolding waited still_open
  waited-Releases s text (w, log) =
      then_do-Even text _ done-Releases log _
        (note-Even (Log.waited s) (λ l. refl) log (c.wait s w))

  streamed-Releases :
      (s : Session) (path text text' : Bytes) (write : Logged W → Logged W × Option Err)
      → Releases write
      → Releases (streamed (logged c) s path text text' write)
  unfolding streamed still_open
  streamed-Releases s path text text' write keeps (w, log) =
      then_do-Even _ _
        (λ p.
          then_do-Even text _
            (λ q.
              after_stdin s q.1 _
                (waited-Releases s text' (c.close_stdin s q.0, stdin_closed s ∷ q.1)))
            p.1 (write p) (keeps p))
        log _ (note-Even (Log.began s (codes "cat > " ++ path)) (λ l. refl) log (c.start s _ w))

  sent_over-Releases :
      (path text text' : Bytes) (write : Session → Logged W → Logged W × Option Err)
      → ((s : Session) → Releases (write s))
      → (s : Session) → Releases (sent_over (logged c) path text text' write s)
  unfolding sent_over still_open
  sent_over-Releases path text text' write keeps s (w, log) =
      if_made-Even c _
        (λ p.
          then_do-Even _ _
            (λ q. stdin-Even s q.1 _ (streamed-Releases s path text text' (write s) (keeps s) q))
            p.1 _ (note-Even (Log.piped_in s) (λ l. refl) p.1 (c.stdin_pipe s p.0)))
        log _ (create_remote_dir-Releases c (dir path) (w, log))

  pub copy_file_to_remote-Releases :
      (content path : Bytes) → Releases (copy_file_to_remote (logged c) content path)
  unfolding copy_file_to_remote still_open
  copy_file_to_remote-Releases content path (w, log) =
      session-Even c _ _
        (sent_over-Releases path _ _ _
          (λ s p. note-Even (Log.wrote s content) (λ l. refl) p.1 (c.write_stdin s content p.0)))
        log _

  pub copy_local_to_remote-Releases :
      (local path : Bytes) → Releases (copy_local_to_remote (logged c) local path)
  unfolding copy_local_to_remote still_open
  copy_local_to_remote-Releases local path (w, log) =
      file-Even c _ _
        (λ f p.
          session-Even c _ _
            (sent_over-Releases path _ _ _
              (λ s q. note-Even (Log.sent_file s f) (λ l. refl) q.1 (c.send_file f s q.0)))
            p.1 _)
        log _

  received-Releases : (path : Bytes) (s f : ℕ) → Releases (received (logged c) path s f)
  unfolding received still_open
  received-Releases path s f (w, log) =
      then_do-Even _ _
        (λ p.
          then_do-Even _ _
            (λ q.
              then_do-Even _ _ (waited-Releases s _) q.1 _
                (note-Even (Log.saved s f) (λ l. refl) q.1 (c.save_stdout s f q.0)))
            p.1 _
            (note-Even (Log.began s (codes "cat " ++ path)) (λ l. refl) p.1 (c.start s _ p.0)))
        log _ (note-Even (Log.piped_out s) (λ l. refl) log (c.stdout_pipe s w))

  pub copy_remote_to_local-Releases :
      (path local : Bytes) → Releases (copy_remote_to_local (logged c) path local)
  unfolding copy_remote_to_local still_open
  copy_remote_to_local-Releases path local (w, log) =
      session-Even c _ _
        (λ s p.
          then_do-Even _ _ (λ q. file-Even c _ _ (received-Releases path s) q.1 _) p.1 _
            (note-Even (Log.local_dir (dir local)) (λ l. refl) p.1 (c.mkdir_all (dir local) p.0)))
        log _
