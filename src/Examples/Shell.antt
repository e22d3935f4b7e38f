-- ===== src/Examples/Shell.antt =====
-- Tests of Shell, Logging and Commands, and their theorems at concrete inputs.
use zygote.Common.{
  ℕ, zero, suc, true, false, Option, none, some, List, [], ◌∷◌, length, Bytes, codes, pos, Result,
  ok, err, exited, ◌≡◌, refl, arith,
}
use zygote.Errors.{Err, errorf}
use zygote.Shell.{quote, command_line, run_capture, script, Processes, browser_command}
use zygote.Shell.Words.{sh_words, sh_words-command_line}
use zygote.Shell.Names.{matches, formatted}
use zygote.Shell.Prompt.{yes_no, first_answer, yes_no-first_answer}
use zygote.Logging.{
  Args, Value, Call, Level, string, int, error_value, nil, add_fields, new_logger, Logger, Format,
}
use zygote.Logging.Order.{exchange, add_fields-Reordered}
use zygote.Commands.Query.{Database, query_action, query_action-exits}

abbrev argv : List Bytes
argv = codes "tee" ∷ codes "a \"b\" c" ∷ [] ∷ []

quoted : quote (codes "a \"b\"") ≡ codes "\"a \\\"b\\\"\""
unfolding quote zygote.Shell.quoted_bytes zygote.Shell.quote_byte
quoted = refl

sh_words-command_line_example :
    sh_words (command_line (codes "tee" ∷ codes "x\\ y" ∷ [] ∷ []))
    ≡ some (codes "tee" ∷ codes "x\\ y" ∷ [] ∷ [])
sh_words-command_line_example =
    sh_words-command_line (codes "tee") (codes "x\\ y" ∷ [] ∷ []) (omega arith)

-- A dollar sign is not read back as itself.
expanded : sh_words (command_line (codes "echo" ∷ codes "$HOME" ∷ [])) ≡ none
unfolding command_line sh_words zygote.Strings.join quote zygote.Shell.quoted_bytes
    zygote.Shell.quote_byte
expanded = refl

-- Commands whose line is longer than eight bytes fail.
abbrev machine : Processes ℕ
machine = record {
  start = λ c w. elim (length c.text) as (λ n. (ℕ × Bytes) × Option Err) [
    | zero ↦ ((w, []), none)
    | suc n ↦ ((suc w, codes "out"), none)
  ];
}

script_runs : script machine (argv ∷ argv ∷ []) 0 ≡ (2, none)
unfolding script zygote.Shell.script_step zygote.Shell.run zygote.Shell.run_with_opts
    zygote.Shell.end_of_run command_line zygote.Strings.join quote
script_runs = refl

capture_fails :
    run_capture machine (codes "ls" ∷ []) 0
    ≡ (0, err (errorf (codes "run [ls] failed: exec: Stdout already set")))
unfolding run_capture zygote.Shell.captured zygote.Shell.output zygote.Shell.run_failed
    zygote.Shell.argv_text zygote.Strings.join
capture_fails = refl

abbrev random_bytes : Result Err Bytes
random_bytes = ok (0 ∷ 255 ∷ 61 ∷ [])

name_is_refused : matches (formatted (codes "/home/a-b/c d")) ≡ false
unfolding matches formatted
name_is_refused = refl

yes_no-first_answer_example :
    yes_no 5 (codes "what" ∷ codes " Yes " ∷ codes "no" ∷ [])
    ≡ first_answer (codes "what" ∷ codes " Yes " ∷ codes "no" ∷ [])
yes_no-first_answer_example =
    yes_no-first_answer 5 (codes "what" ∷ codes " Yes " ∷ codes "no" ∷ []) (omega arith)

answers : first_answer (codes "what" ∷ codes " Yes " ∷ codes "no" ∷ []) ≡ some true
unfolding first_answer
answers = refl

abbrev args : Args
args =
    (codes "port", int (pos 80))
    ∷ (codes "error", error_value (errorf (codes "bad")) (some (codes "f:1" ∷ [])))
    ∷ (codes "host", string (codes "h"))
    ∷ []

abbrev args_otherwise : Args
args_otherwise =
    (codes "error", error_value (errorf (codes "bad")) (some (codes "f:1" ∷ [])))
    ∷ (codes "port", int (pos 80))
    ∷ (codes "host", string (codes "h"))
    ∷ []

add_fields-Reordered_example : add_fields [] args ≡ add_fields [] args_otherwise
unfolding zygote.Strings.bytes_eq
add_fields-Reordered_example =
    add_fields-Reordered [] {a = args} {b = args_otherwise} (exchange _ _ _ _ _ refl)

sorted_fields :
    add_fields [] args
    ≡ Call.str (codes "error") (codes "bad")
      ∷ Call.strs (codes "stack") (codes "f:1" ∷ [])
      ∷ Call.str (codes "host") (codes "h")
      ∷ Call.call_int (codes "port") (pos 80)
      ∷ []
unfolding add_fields zygote.Logging.insert_key zygote.Logging.less
sorted_fields = refl

logs_warnings : (new_logger (λ name. codes "WARN")).level ≡ Level.warn
unfolding new_logger
logs_warnings = refl

abbrev query_store : Database ℕ
query_store = record {
  ping = λ h w. (w, none);
  query = λ h text w. (suc w, ok (record { columns = ok []; rows = []; rows_err = none }));
  marshal = λ rows. ok (codes "null");
  println = λ text w. suc w;
}

query_action-exits_example :
    query_action query_store (λ name. []) (codes "app") (codes "SHOW TABLES" ∷ []) none 0
    ≡ exited (codes "no write connection found for shard 0")
query_action-exits_example =
    query_action-exits query_store (λ name. []) (codes "app") (codes "SHOW TABLES" ∷ []) none 0
