-- ===== src/Remote/Copied.antt =====
-- remote.go: what a copy to the remote host has done when it returns no error.
use zygote.Common.{
  Option, none, some, List, ◌∷◌, ◌++◌, Bytes, codes, Result, ok, err, ◌≡◌, ◌≢◌, arith, refl, sym,
  ◌∙◌, ap,
}
use zygote.Errors.{Err}
use zygote.Paths.{dir}
use zygote.Remote.{Session, Ssh, Ran, with_session, deferred, then_do, made, create_remote_dir}
use zygote.Remote.Copy.{if_made, waited, streamed, sent_over, copy_file_to_remote}
use zygote.Remote.Log
use zygote.Remote.Log.{
  Event, Logged, logged, note_call, note_opened, note_run, acquired, released, session,
  stdin_closed,
}

-- If there is no error, the log is the given one.
Gives : {W : Type 0} → Logged W × Option Err → List Event → Type 0
Gives r log = r.1 ≡ none → r.0.1 ≡ log

note-Gives :
    {W : Type 0} (e : Event) (log : List Event) (r : W × Option Err)
    → Gives (note_call e log r) (e ∷ log)
unfolding Gives note_call
note-Gives e log (w, none) h = refl
note-Gives e log (w, some x) h = cc

Gives-at :
    {W : Type 0} (next : Logged W → Logged W × Option Err) (l log log' : List Event)
    → l ≡ log
    → ((w : W) → Gives (next (w, log)) log')
    → (w : W) → Gives (next (w, l)) log'
Gives-at next l log log' e after w = rw e (after w)

then_do-Gives :
    {W : Type 0} (text : Bytes) (next : Logged W → Logged W × Option Err) (log log' : List Event)
    (r : Logged W × Option Err)
    → Gives r log
    → ((w : W) → Gives (next (w, log)) log')
    → Gives (then_do text next r) log'
unfolding Gives then_do
then_do-Gives text next log log' ((w, l), none) before after h =
    Gives-at next l log log' (before refl) after w h
then_do-Gives text next log log' ((w, l), some e) before after h = cc

if_made-Gives :
    {W : Type 0} (c : Ssh W) (next : Logged W → Logged W × Option Err) (log log' : List Event)
    (r : Logged W × Option Err)
    → Gives r log
    → ((w : W) → Gives (next (w, log)) log')
    → Gives (if_made (logged c) next r) log'
unfolding Gives if_made
if_made-Gives c next log log' ((w, l), none) before after h =
    Gives-at next l log log' (before refl) after w h
if_made-Gives c next log log' ((w, l), some e) before after h = cc

module _ {W : Type 0} (c : Ssh W) where
  -- The events of a directory that was made, in a session of its own.
  abbrev pub made_events : Session → Bytes → List Event → List Event
  made_events t path log =
      released (session t) ∷ Log.ran t (codes "mkdir -p " ++ path) ∷ acquired (session t) ∷ log

  made-Gives :
      (t : Session) (text : Bytes) (log : List Event) (r : W × Ran)
      → Gives (made (logged c) (note_run t text log r)) (Log.ran t text ∷ log)
  unfolding Gives note_run made
  made-Gives t text log (w, r) h = ground arith

  dir-Made :
      (refused : Err → Option Err) (path : Bytes) (log : List Event) (r : W × Result Err Session)
      → ((e : Err) → refused e ≢ none)
      → let result =
          with_session
            (logged c)
            refused
            (λ s v. made (logged c) ((logged c).run s (codes "mkdir -p " ++ path) v))
            (note_opened session log r) in
        result.1 ≡ none → (t : Session) × (result.0.1 ≡ made_events t path log)
  unfolding with_session note_opened deferred Gives
  dir-Made refused path log (w, err e) never h = absurd (never e h)
  dir-Made refused path log (w, ok t) never h = (
    t,
    ap (λ l. released (session t) ∷ l)
        (made-Gives t (codes "mkdir -p " ++ path) (acquired (session t) ∷ log)
          (c.run t (codes "mkdir -p " ++ path) w) h),
  )

  create_remote_dir-Made :
      (path : Bytes) (w : W) (log : List Event)
      → (create_remote_dir (logged c) path (w, log)).1 ≡ none
      → (t : Session) × ((create_remote_dir (logged c) path (w, log)).0.1 ≡ made_events t path log)
  unfolding create_remote_dir
  create_remote_dir-Made path w log h = dir-Made _ path log (c.new_session w) (λ e p. cc) h

  -- The events of the content, in the order of the newest first.
  abbrev pub streamed_events : Session → Bytes → Bytes → List Event → List Event
  streamed_events s content path log =
      stdin_closed s
      ∷ Log.waited s
      ∷ stdin_closed s
      ∷ Log.wrote s content
      ∷ Log.began s (codes "cat > " ++ path)
      ∷ Log.piped_in s
      ∷ log

  done-Gives : (log : List Event) (w : W) → Gives {W = W} ((w, log), none) log
  unfolding Gives
  done-Gives log w h = refl

  stdin-Gives :
      (s : Session) (log : List Event) (r : Logged W × Option Err)
      → Gives r log
      → Gives (deferred ((logged c).close_stdin s) r) (stdin_closed s ∷ log)
  unfolding Gives deferred
  stdin-Gives s log (p, e) h none_left = ap (λ l. stdin_closed s ∷ l) (h none_left)

  waited-Gives :
      (s : Session) (text : Bytes) (log : List Event) (w : W)
      → Gives (waited (logged c) s text (w, log)) (Log.waited s ∷ log)
  unfolding waited
  waited-Gives s text log w =
      then_do-Gives text _ (Log.waited s ∷ log) _ _ (note-Gives (Log.waited s) log (c.wait s w))
        (done-Gives (Log.waited s ∷ log))

  streamed-Gives :
      (s : Session) (content path text text' : Bytes) (log : List Event) (w : W)
      → Gives (streamed (logged c) s path text text' ((logged c).write_stdin s content) (w, log)) (
          Log.waited s
          ∷ stdin_closed s
          ∷ Log.wrote s content
          ∷ Log.began s (codes "cat > " ++ path)
          ∷ log)
  unfolding streamed
  streamed-Gives s content path text text' log w =
      let began = Log.began s (codes "cat > " ++ path) in
      then_do-Gives _ _ (began ∷ log) _ _ (note-Gives began log (c.start s _ w)) (λ v.
        then_do-Gives text _ (Log.wrote s content ∷ began ∷ log) _ _
          (note-Gives (Log.wrote s content) (began ∷ log) (c.write_stdin s content v))
          (λ u.
            waited-Gives s text' (stdin_closed s ∷ Log.wrote s content ∷ began ∷ log)
              (c.close_stdin s u)))

  piped-Gives :
      (s : Session) (content path text text' text'' : Bytes) (log : List Event) (w : W)
      → Gives
          (then_do text''
            (λ p.
              deferred
                ((logged c).close_stdin s)
                (streamed (logged c) s path text text' ((logged c).write_stdin s content) p))
            ((logged c).stdin_pipe s (w, log)))
          (streamed_events s content path log)
  piped-Gives s content path text text' text'' log w =
      then_do-Gives text'' _ (Log.piped_in s ∷ log) _ _
        (note-Gives (Log.piped_in s) log (c.stdin_pipe s w))
        (λ v. stdin-Gives s _ _ (streamed-Gives s content path text text' (Log.piped_in s ∷ log) v))

  if_made-Some :
      (next : Logged W → Logged W × Option Err) (f g : Session → List Event)
      (r : Logged W × Option Err)
      → (r.1 ≡ none → (t : Session) × (r.0.1 ≡ f t))
      → ((t : Session) (w : W) → Gives (next (w, f t)) (g t))
      → (if_made (logged c) next r).1 ≡ none
      → (t : Session) × ((if_made (logged c) next r).0.1 ≡ g t)
  unfolding if_made Gives
  if_made-Some next f g ((w, l), none) before after h =
      let (t, e) = before refl in (t, Gives-at next l (f t) (g t) e (after t) w h)
  if_made-Some next f g (p, some e) before after h = cc

  sent_over-Some :
      (s : Session) (content path text text' : Bytes) (log : List Event) (w : W)
      → let result =
          sent_over (logged c) path text text' (λ s. (logged c).write_stdin s content) s (w, log) in
        result.1 ≡ none
        → (t : Session) × (result.0.1
            ≡ streamed_events s content path (made_events t (dir path) log))
  unfolding sent_over
  sent_over-Some s content path text text' log w =
      if_made-Some _ (λ t. made_events t (dir path) log)
        (λ t. streamed_events s content path (made_events t (dir path) log)) _
        (create_remote_dir-Made (dir path) w log)
        (λ t. piped-Gives s content path text text' _ (made_events t (dir path) log))

  session-Some :
      (refused : Err → Option Err) (body : Session → Logged W → Logged W × Option Err)
      (f : Session → Session → List Event) (log : List Event) (r : W × Result Err Session)
      → ((e : Err) → refused e ≢ none)
      → ((s : Session) (w : W)
          → (body s (w, acquired (session s) ∷ log)).1 ≡ none
          → (t : Session) × ((body s (w, acquired (session s) ∷ log)).0.1 ≡ f s t))
      → (with_session (logged c) refused body (note_opened session log r)).1 ≡ none
      → (s t : Session) × ((with_session (logged c) refused body (note_opened session log r)).0.1
          ≡ released (session s) ∷ f s t)
  unfolding with_session note_opened deferred
  session-Some refused body f log (w, err e) never after h = absurd (never e h)
  session-Some refused body f log (w, ok s) never after h =
      let (t, e) = after s w h in (s, t, ap (λ l. released (session s) ∷ l) e)

  -- A copy from memory that returns no error has done, in this order and nothing else: opened a
  -- session; opened another, run `mkdir -p` in it on the directory of the path, and closed it; started
  -- `cat` into the path in the first session, written the whole content to it, closed its input,
  -- waited for its success, and closed its input again and the session. Each of the calls succeeded.
  pub copy_file_to_remote-Done :
      (content path : Bytes) (w w' : W) (log log' : List Event)
      → copy_file_to_remote (logged c) content path (w, log) ≡ ((w', log'), none)
      → (s t : Session) × (log'
          ≡ released (session s)
            ∷ streamed_events s content path
                (made_events t (dir path) (acquired (session s) ∷ log)))
  unfolding copy_file_to_remote
  copy_file_to_remote-Done content path w w' log log' h =
      let (s, t, e) =
        session-Some _ _
          (λ s t.
            streamed_events s content path (made_events t (dir path) (acquired (session s) ∷ log)))
          log (c.new_session w) (λ x p. cc)
          (λ s v. sent_over-Some s content path _ _ (acquired (session s) ∷ log) v)
          (ap (λ r. r.1) h) in
      (s, t, sym (ap (λ r. r.0.1) h) ∙ e)
