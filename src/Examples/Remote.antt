-- ===== src/Examples/Remote.antt =====
-- Tests of Remote, and its theorems at concrete inputs.
use zygote.Common.{
  ℕ, suc, none, some, List, [], ◌∷◌, Bytes, codes, pos, ok, ◌≡◌, refl, if◌then◌else◌,
}
use zygote.Strings.{bytes_eq}
use zygote.Errors.{errorf}
use zygote.Paths.{clean, dir, base, join_path}
use zygote.Remote.{Session, Ssh, Ran, RunError, exit_error, CommandResult, run_command}
use zygote.Remote.Copy.{copy_file_to_remote}
use zygote.Remote.Log.{
  Event, Logged, logged, still_open, acquired, released, session, file, ran, stdin_closed, waited,
  wrote, began, piped_in,
}
use zygote.Remote.Requests.{Request, perform_all, command, put, download, perform_all-still_open}
use zygote.Remote.Copied.{copy_file_to_remote-Done, made_events, streamed_events}
use zygote.Remote.Listing.{lines}

abbrev files : List Bytes
files = codes "a.txt" ∷ codes "b c" ∷ []

-- Commands that start with `false` fail with status 1.
abbrev outcome : Bytes → Ran
outcome text =
    if bytes_eq text (codes "false")
    then record {
      stdout = [];
      stderr = codes "no";
      error = some (exit_error (pos 1) (codes "exit"));
    }
    else record { stdout = lines files; stderr = []; error = none }

-- A host on which the state is the number of the next session or file.
abbrev host : Ssh ℕ
host = record {
  new_session = λ w. (suc w, ok w);
  close_session = λ s w. w;
  run = λ s text w. (w, outcome text);
  stdin_pipe = λ s w. (w, none);
  stdout_pipe = λ s w. (w, some (errorf (codes "no pipe")));
  start = λ s text w. (w, none);
  write_stdin = λ s text w. (w, none);
  close_stdin = λ s w. w;
  wait = λ s w. (w, none);
  open_file = λ path w. (suc w, ok w);
  create_file = λ path w. (suc w, ok w);
  close_file = λ f w. w;
  mkdir_all = λ path w. (w, none);
  send_file = λ f s w. (w, none);
  save_stdout = λ s f w. (w, none);
}

clean_path : clean (codes "/a/./b//../c/") ≡ codes "/a/c"
unfolding clean
clean_path = refl

clean_up : clean (codes "../a/../..") ≡ codes "../.."
unfolding clean
clean_up = refl

dir_path : dir (codes "/etc/zygote/x.pem") ≡ codes "/etc/zygote"
unfolding dir
dir_path = refl

base_path : base (codes "/home/x/repo/") ≡ codes "repo"
unfolding base
base_path = refl

join_parts : join_path (codes "/h" ∷ [] ∷ codes "a/" ∷ codes "b" ∷ []) ≡ codes "/h/a/b"
unfolding join_path
join_parts = refl

command_fails :
    (run_command host (codes "false") 0).1.0
    ≡ record { stdout = []; stderr = codes "no"; exit_code = pos 1 }
unfolding run_command zygote.Remote.with_session zygote.Remote.deferred zygote.Remote.ran_command
    zygote.Remote.command_result bytes_eq
command_fails = refl

-- The download fails at the pipe, with its session and its local file open.
abbrev requests : List Request
requests =
    put (codes "hi") (codes "/etc/x/y")
    ∷ command (codes "false")
    ∷ download (codes "/etc/x") (codes "/tmp/x")
    ∷ []

perform_all-still_open_example :
    still_open (perform_all (logged host) requests (0, acquired (file 7) ∷ [])).1
    ≡ still_open (acquired (file 7) ∷ [])
perform_all-still_open_example = perform_all-still_open host requests (0, acquired (file 7) ∷ [])

abbrev copy_log : List Event
copy_log =
    released (session 0)
    ∷ stdin_closed 0
    ∷ waited 0
    ∷ stdin_closed 0
    ∷ wrote 0 (codes "hi")
    ∷ began 0 (codes "cat > /etc/x/y")
    ∷ piped_in 0
    ∷ released (session 1)
    ∷ ran 1 (codes "mkdir -p /etc/x")
    ∷ acquired (session 1)
    ∷ acquired (session 0)
    ∷ []

copied_once :
    copy_file_to_remote (logged host) (codes "hi") (codes "/etc/x/y") (0, [])
    ≡ ((2, copy_log), none)
unfolding copy_file_to_remote zygote.Remote.with_session zygote.Remote.Log.note_opened
    zygote.Remote.deferred zygote.Remote.Copy.sent_over zygote.Remote.Copy.if_made
    zygote.Remote.create_remote_dir zygote.Remote.made zygote.Remote.Log.note_run bytes_eq
    zygote.Remote.then_do zygote.Remote.Log.note_call zygote.Remote.Copy.streamed
    zygote.Remote.Copy.waited dir
copied_once = refl

copy_file_to_remote-Done_example :
    (s t : Session) × (copy_log
      ≡ released (session s)
        ∷ streamed_events host s
            (codes "hi")
            (codes "/etc/x/y")
            (made_events host t (dir (codes "/etc/x/y")) (acquired (session s) ∷ [])))
copy_file_to_remote-Done_example =
    copy_file_to_remote-Done host (codes "hi") (codes "/etc/x/y") 0 2 [] copy_log copied_once
