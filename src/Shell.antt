-- ===== src/Shell.antt =====
-- lib/cluster/utils/shell.go: running commands by the shell, names of repositories, random texts, and
-- paths. The processes and the files are parameters.
pub mod Words
pub mod Names
pub mod Vault
pub mod Prompt
use zygote.Common.{
  ℕ, zero, suc, ◌+◌, ◌-◌, ◌/◌, ◌%◌, Bool, true, false, ◌&&◌, ◌||◌, not, Option, none, some, List,
  [], ◌∷◌, ◌++◌, map, length, get_elem?, if◌then◌else◌, ltb, leb, ◌==◌, Bytes, codes, Outcome,
  returned, exited, Result, ok, err,
}
use zygote.Strings.{join, bytes_eq}
use zygote.Errors.{Err, errorf, error_text, wrap}
use zygote.Paths.{dir, base}

-- A digit of a byte in hexadecimal.
hex_digit : ℕ → ℕ
hex_digit n = if ltb n 10 then b'0' + n else b'a' + (n - 10)

-- `strconv.Quote` of one byte, as `%q` writes it. Bytes from 128 on stand for letters that are printed
-- as they are.
unfoldable pub quote_byte : ℕ → Bytes
unfolding hex_digit
quote_byte c =
    if c == b'"' || c == 92
    then 92 ∷ c ∷ []
    else if leb 32 c && not (c == 127)
    then c ∷ []
    else if c == 7
    then 92 ∷ b'a' ∷ []
    else if c == 8
    then 92 ∷ b'b' ∷ []
    else if c == 12
    then 92 ∷ b'f' ∷ []
    else if c == 10
    then 92 ∷ b'n' ∷ []
    else if c == 13
    then 92 ∷ b'r' ∷ []
    else if c == 9
    then 92 ∷ b't' ∷ []
    else if c == 11
    then 92 ∷ b'v' ∷ []
    else 92 ∷ b'x' ∷ hex_digit (c / 16) ∷ hex_digit (c % 16) ∷ []

unfoldable pub quoted_bytes : Bytes → Bytes
quoted_bytes [] = []
quoted_bytes (c ∷ s) = quote_byte c ++ quoted_bytes s

-- `fmt.Sprintf("%q", arg)`.
unfoldable pub quote : Bytes → Bytes
quote s = b'"' ∷ (quoted_bytes s ++ b'"' ∷ [])

-- What `/bin/sh -c` is given.
unfoldable pub command_line : List Bytes → Bytes
command_line argv = join (map quote argv) (b' ' ∷ [])

-- `%v` of a slice of strings.
unfoldable pub argv_text : List Bytes → Bytes
argv_text argv = b'[' ∷ (join argv (b' ' ∷ []) ++ b']' ∷ [])

-- A command of os/exec: the text for the shell, and whether its streams go to those of the process.
pub record Cmd : Type 0 where
  pub text : Bytes
  pub stdout : Bool
  pub stderr : Bool

-- `start` runs a command to its end, with what it printed where its output is not passed on.
pub record Processes (W : Type 0) : Type 0 where
  pub start : Cmd → W → (W × Bytes) × Option Err

unfoldable pub run_failed : List Bytes → Err → Err
unfolding error_text
run_failed argv e = errorf (codes "run " ++ argv_text argv ++ codes " failed: " ++ error_text e)

-- The program and the arguments of `OpenURLInBrowser` on an operating system.
unfoldable pub browser_command : Bytes → Bytes → List Bytes
unfolding bytes_eq
browser_command os url =
    if bytes_eq os (codes "darwin")
    then codes "open" ∷ url ∷ []
    else if bytes_eq os (codes "windows")
    then codes "rundll32" ∷ codes "url.dll,FileProtocolHandler" ∷ url ∷ []
    else codes "xdg-open" ∷ url ∷ []

module _ {W : Type 0} (x : Processes W) where
  unfoldable pub end_of_run : List Bytes → (W × Bytes) × Option Err → W × Option Err
  end_of_run argv ((w, out), none) = (w, none)
  end_of_run argv ((w, out), some e) = (w, some (run_failed argv e))

  -- `RunWithOpts`: the arguments are `!SupressStdout` and `!SupressStderr`.
  unfoldable pub run_with_opts : Bool → Bool → List Bytes → W → W × Option Err
  run_with_opts stdout stderr argv w =
      end_of_run argv
        (x.start (record { text = command_line argv; stdout = stdout; stderr = stderr }) w)

  unfoldable pub run : List Bytes → W → W × Option Err
  run = run_with_opts true true

  unfoldable pub run_silent : List Bytes → W → W × Option Err
  run_silent = run_with_opts false false

  -- `Cmd.Output`, which refuses a command whose output is set.
  unfoldable pub output : Cmd → W → (W × Bytes) × Option Err
  output c w =
      if c.stdout then ((w, []), some (errorf (codes "exec: Stdout already set"))) else x.start c w

  unfoldable pub captured : List Bytes → (W × Bytes) × Option Err → W × Result Err Bytes
  captured argv ((w, out), none) = (w, ok out)
  captured argv ((w, out), some e) = (w, err (run_failed argv e))

  -- `RunCapture`.
  unfoldable pub run_capture : List Bytes → W → W × Result Err Bytes
  run_capture argv w =
      captured argv (output (record { text = command_line argv; stdout = true; stderr = false }) w)

  unfoldable pub script_step : (W → W × Option Err) → W × Option Err → W × Option Err
  script_step next (w, none) = next w
  script_step next (w, some e) = (w, some (wrap (codes "failed to running command: ") e))

  -- `Script`.
  unfoldable pub script : List (List Bytes) → W → W × Option Err
  script [] w = (w, none)
  script (argv ∷ rest) w = script_step (script rest) (run argv w)

  -- `Elevate` and `UnElevate`.
  unfoldable pub elevate : W → W × Option Err
  elevate = run (codes "sudo" ∷ codes "-v" ∷ [])

  unfoldable pub un_elevate : W → W × Option Err
  un_elevate = run (codes "sudo" ∷ codes "-K" ∷ [])
