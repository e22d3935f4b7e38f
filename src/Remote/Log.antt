-- ===== src/Remote/Log.antt =====
-- Any SSH client with a log of what it was asked: sessions and files that were opened and closed, and
-- the steps that succeeded. The newest event stands first.
use zygote.Common.{
  ℕ, Option, none, some, List, [], ◌∷◌, Bytes, Result, ok, err, ◌==◌, Bool, false, if◌then◌else◌,
}
use zygote.Errors.{Err}
use zygote.Remote.{Session, File, Ssh, Ran}

pub data Resource : Type 0 where
  session : Session → Resource
  file : File → Resource

pub data Event : Type 0 where
  acquired : Resource → Event
  released : Resource → Event
  ran : Session → Bytes → Event
  piped_in : Session → Event
  piped_out : Session → Event
  began : Session → Bytes → Event
  wrote : Session → Bytes → Event
  sent_file : Session → File → Event
  saved : Session → File → Event
  stdin_closed : Session → Event
  waited : Session → Event
  local_dir : Bytes → Event

abbrev pub Logged : Type 0 → Type 0
Logged W = W × List Event

-- A call that may fail is logged when it succeeds.
unfoldable pub note_call :
    {W : Type 0} → Event → List Event → W × Option Err → Logged W × Option Err
note_call e log (w, none) = ((w, e ∷ log), none)
note_call e log (w, some x) = ((w, log), some x)

unfoldable pub note_opened :
    {W : Type 0} → (ℕ → Resource) → List Event → W × Result Err ℕ → Logged W × Result Err ℕ
note_opened kind log (w, ok n) = ((w, acquired (kind n) ∷ log), ok n)
note_opened kind log (w, err e) = ((w, log), err e)

unfoldable pub note_run : {W : Type 0} → Session → Bytes → List Event → W × Ran → Logged W × Ran
note_run s command log (w, r) = elim r.error [
  | none ↦ ((w, ran s command ∷ log), r)
  | some e ↦ ((w, log), r)
]

abbrev pub logged : {W : Type 0} → Ssh W → Ssh (Logged W)
logged c = record {
  new_session = λ p. note_opened session p.1 (c.new_session p.0);
  close_session = λ s p. (c.close_session s p.0, released (session s) ∷ p.1);
  run = λ s command p. note_run s command p.1 (c.run s command p.0);
  stdin_pipe = λ s p. note_call (piped_in s) p.1 (c.stdin_pipe s p.0);
  stdout_pipe = λ s p. note_call (piped_out s) p.1 (c.stdout_pipe s p.0);
  start = λ s command p. note_call (began s command) p.1 (c.start s command p.0);
  write_stdin = λ s content p. note_call (wrote s content) p.1 (c.write_stdin s content p.0);
  close_stdin = λ s p. (c.close_stdin s p.0, stdin_closed s ∷ p.1);
  wait = λ s p. note_call (waited s) p.1 (c.wait s p.0);
  open_file = λ path p. note_opened file p.1 (c.open_file path p.0);
  create_file = λ path p. note_opened file p.1 (c.create_file path p.0);
  close_file = λ f p. (c.close_file f p.0, released (file f) ∷ p.1);
  mkdir_all = λ path p. note_call (local_dir path) p.1 (c.mkdir_all path p.0);
  send_file = λ f s p. note_call (sent_file s f) p.1 (c.send_file f s p.0);
  save_stdout = λ s f p. note_call (saved s f) p.1 (c.save_stdout s f p.0);
}

unfoldable pub same : Resource → Resource → Bool
same (session s) (session t) = s == t
same (session s) (file f) = false
same (file f) (session s) = false
same (file f) (file g) = f == g

unfoldable pub release : Resource → List Resource → List Resource
unfolding same
release r [] = []
release r (q ∷ qs) = if same r q then qs else q ∷ release r qs

-- What is open after the events of a log.
unfoldable pub still_open : List Event → List Resource
unfolding release
still_open [] = []
still_open (acquired r ∷ log) = r ∷ still_open log
still_open (released r ∷ log) = release r (still_open log)
still_open (ran s command ∷ log) = still_open log
still_open (piped_in s ∷ log) = still_open log
still_open (piped_out s ∷ log) = still_open log
still_open (began s command ∷ log) = still_open log
still_open (wrote s content ∷ log) = still_open log
still_open (sent_file s f ∷ log) = still_open log
still_open (saved s f ∷ log) = still_open log
still_open (stdin_closed s ∷ log) = still_open log
still_open (waited s ∷ log) = still_open log
still_open (local_dir path ∷ log) = still_open log
