-- ===== src/Remote/Released.antt =====
-- remote.go: the sessions and the local files that an operation opens are closed when it returns.
pub mod Copies
use zygote.Common.{
  ℕ, Option, none, some, List, [], ◌∷◌, ◌++◌, Bytes, codes, Result, ok, err, ◌≡◌, refl, ap, ◌∙◌,
  arith, Option-cases, inl, inr,
}
use zygote.Errors.{Err}
use zygote.Paths.{dir}
use zygote.Remote.{
  Session, Ssh, Ran, CommandResult, with_session, deferred, then_do, made, create_remote_dir,
  ran_command, run_command, printed, read_file_from_remote, list_remote_dir,
}
use zygote.Remote.Copy.{
  if_made, waited, streamed, sent_over, copy_file_to_remote, with_file, copy_local_to_remote,
  received, copy_remote_to_local,
}
use zygote.Remote.Log
use zygote.Remote.Log.{
  Event, Logged, Resource, logged, note_call, note_opened, note_run, still_open, release, same,
  acquired, session, file, released, stdin_closed,
}

-- What is open in the end was open at the start.
unfoldable pub Even {ℓ} : {W : Type 0} {A : Type ℓ} → List Event → Logged W × A → Type 0
Even log r = still_open r.0.1 ≡ still_open log

-- So for a call from any log.
abbrev pub Releases {ℓ} : {W : Type 0} {A : Type ℓ} → (Logged W → Logged W × A) → Type 0
Releases {W = W} call = (p : Logged W) → Even p.1 (call p)

release_same : (r : Resource) (rs : List Resource) → release r (r ∷ rs) ≡ rs
unfolding release same
release_same (session s) rs = ground arith
release_same (file f) rs = ground arith

-- Events that open and close nothing.
abbrev pub Quiet : Event → Type 0
Quiet e = (log : List Event) → still_open (e ∷ log) ≡ still_open log

pub note-Even :
    {W : Type 0} (e : Event)
    → Quiet e
    → (log : List Event) (r : W × Option Err) → Even log (note_call e log r)
unfolding Even note_call
note-Even e quiet log (w, none) = quiet log
note-Even e quiet log (w, some x) = refl

pub then_do-Even :
    {W : Type 0} (text : Bytes) (next : Logged W → Logged W × Option Err)
    → Releases next
    → (log : List Event) (r : Logged W × Option Err) → Even log r
    → Even log (then_do text next r)
unfolding Even then_do
then_do-Even text next keeps log (p, none) h = keeps p ∙ h
then_do-Even text next keeps log (p, some x) h = h

pub if_made-Even :
    {W : Type 0} (c : Ssh W) (next : Logged W → Logged W × Option Err)
    → Releases next
    → (log : List Event) (r : Logged W × Option Err) → Even log r
    → Even log (if_made (logged c) next r)
unfolding Even if_made
if_made-Even c next keeps log (p, none) h = keeps p ∙ h
if_made-Even c next keeps log (p, some x) h = h

run-Even :
    {W : Type 0} (s : Session) (command : Bytes) (log : List Event) (r : W × Ran)
    → Even log (note_run s command log r)
unfolding Even note_run still_open
run-Even s command log (w, r) = elim (Option-cases r.error) [
  | inl e ↦ rw (note_run, e)
  | inr (x, e) ↦ rw (note_run, e)
]

module _ {W : Type 0} (c : Ssh W) where
  pub session-Even {ℓ} :
      {A : Type ℓ} (refused : Err → A) (body : Session → Logged W → Logged W × A)
      → ((s : Session) → Releases (body s))
      → (log : List Event) (r : W × Result Err ℕ)
      → Even log (with_session (logged c) refused body (note_opened session log r))
  unfolding Even with_session deferred still_open note_opened
  session-Even refused body keeps log (w, err e) = refl
  session-Even refused body keeps log (w, ok s) =
      ap (release (session s)) (keeps s (w, acquired (session s) ∷ log))
      ∙ release_same (session s) (still_open log)

  pub file-Even :
      (text : Bytes) (body : ℕ → Logged W → Logged W × Option Err)
      → ((f : ℕ) → Releases (body f))
      → (log : List Event) (r : W × Result Err ℕ)
      → Even log (with_file (logged c) text body (note_opened file log r))
  unfolding Even with_file deferred still_open note_opened
  file-Even text body keeps log (w, err e) = refl
  file-Even text body keeps log (w, ok f) =
      ap (release (file f)) (keeps f (w, acquired (file f) ∷ log))
      ∙ release_same (file f) (still_open log)

  made-Even : (log : List Event) (r : Logged W × Ran) → Even log r → Even log (made (logged c) r)
  unfolding Even made
  made-Even log (p, r) h = elim (Option-cases r.error) [
    | inl e ↦ rw (made, e) h
    | inr (x, e) ↦ rw (made, e) h
  ]

  pub create_remote_dir-Releases : (path : Bytes) → Releases (create_remote_dir (logged c) path)
  unfolding create_remote_dir
  create_remote_dir-Releases path (w, log) =
      session-Even _ _ (λ s p. made-Even p.1 _ (run-Even s _ p.1 (c.run s _ p.0))) log _

  printed-Even {ℓ} :
      {A : Type ℓ} (use_output : Bytes → A) (text path : Bytes) (log : List Event)
      (r : Logged W × Ran)
      → Even log r
      → Even log (printed (logged c) use_output text path r)
  unfolding Even printed
  printed-Even use_output text path log (p, r) h = elim (Option-cases r.error) [
    | inl e ↦ rw (printed, e) h
    | inr (x, e) ↦ rw (printed, e) h
  ]

  pub read_file_from_remote-Releases :
      (path : Bytes) → Releases (read_file_from_remote (logged c) path)
  unfolding read_file_from_remote
  read_file_from_remote-Releases path (w, log) =
      session-Even _ _ (λ s p. printed-Even _ _ _ p.1 _ (run-Even s _ p.1 (c.run s _ p.0))) log _

  pub list_remote_dir-Releases : (path : Bytes) → Releases (list_remote_dir (logged c) path)
  unfolding list_remote_dir
  list_remote_dir-Releases path (w, log) =
      session-Even _ _ (λ s p. printed-Even _ _ _ p.1 _ (run-Even s _ p.1 (c.run s _ p.0))) log _

  ran_command-Even :
      (command : Bytes) (log : List Event) (r : Logged W × Ran)
      → Even log r
      → Even log (ran_command (logged c) command r)
  unfolding Even ran_command
  ran_command-Even command log (p, r) h = h

  pub run_command-Releases : (command : Bytes) → Releases (run_command (logged c) command)
  unfolding run_command
  run_command-Releases command (w, log) =
      session-Even _ _ (λ s p. ran_command-Even _ p.1 _ (run-Even s _ p.1 (c.run s _ p.0))) log _
