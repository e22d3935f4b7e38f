-- ===== src/Logging.antt =====
-- lib/cluster/utils/logging.go: the level and the format of the log, and the fields of a message.
-- zerolog is a parameter: what it writes of a message is a function of its level, text and fields.
pub mod Order
use zygote.Common.{
  ℕ, Bool, true, false, ◌||◌, Option, none, some, List, [], ◌∷◌, ◌++◌, if◌then◌else◌, ltb, ◌==◌,
  Bytes, codes, ℤ, Outcome, returned, exited,
}
use zygote.Strings.{bytes_eq, to_lower}
use zygote.Errors.{Err, error_text}
use zygote.Cluster.{Env}

pub data Level : Type 0 where
  debug info warn error fatal : Level

pub data Format : Type 0 where
  json : Format
  console : Bool → Format

-- `zerologLogger`, with the level that `NewLogger` sets for the process.
pub record Logger : Type 0 where
  pub level : Level
  pub format : Format

-- The level of the variable, `info` where it names none.
unfoldable pub level_of : Bytes → Level
unfolding bytes_eq
level_of name =
    if bytes_eq name (codes "debug")
    then debug
    else if bytes_eq name (codes "warn")
    then warn
    else if bytes_eq name (codes "error")
    then error
    else if bytes_eq name (codes "fatal")
    then fatal
    else info

-- `NewLogger`.
unfoldable pub new_logger : Env → Logger
unfolding level_of bytes_eq to_lower
new_logger env = record {
  level = level_of (to_lower (env (codes "Z_LOG_LEVEL")));
  format =
      if bytes_eq (env (codes "DAEMON_MODE")) (codes "true")
      then json
      else console (bytes_eq (env (codes "Z_NO_COLOR")) (codes "1"));
}

-- A value of a field. An error may have a stack trace, by the texts of its frames. Values that the
-- program does not tell apart go by a text, also times and the kinds of numbers.
pub data Value : Type 0 where
  string : Bytes → Value
  int : ℤ → Value
  int64 : ℤ → Value
  float64 : Bytes → Value
  bool : Bool → Value
  time : Bytes → Value
  error_value : Err → Option (List Bytes) → Value
  nil : Value
  other : Bytes → Value

-- `M` as a list of its entries, in the order of a `range` loop, which Go leaves open.
abbrev pub Args : Type 0
Args = List (Bytes × Value)

-- What is called on an event, in the order of the calls.
pub data Call : Type 0 where
  str : Bytes → Bytes → Call
  strs : Bytes → List Bytes → Call
  call_int : Bytes → ℤ → Call
  call_int64 : Bytes → ℤ → Call
  call_float64 : Bytes → Bytes → Call
  call_bool : Bytes → Bool → Call
  call_time : Bytes → Bytes → Call
  interface : Bytes → Value → Call
  call_err : Option Err → Call

-- `a < b` on strings.
unfoldable pub less : Bytes → Bytes → Bool
less [] [] = false
less [] (y ∷ ys) = true
less (x ∷ xs) [] = false
less (x ∷ xs) (y ∷ ys) =
    let rest = less xs ys in if ltb x y then true else if ltb y x then false else rest

unfoldable pub insert_key : Bytes → List Bytes → List Bytes
insert_key k [] = k ∷ []
insert_key k (j ∷ ks) = let later = j ∷ insert_key k ks in if less j k then later else k ∷ j ∷ ks

-- `sort.Strings`.
unfoldable pub sort_keys : List Bytes → List Bytes
sort_keys [] = []
sort_keys (k ∷ ks) = insert_key k (sort_keys ks)

unfoldable pub keys : Args → List Bytes
keys [] = []
keys ((k, v) ∷ args) = k ∷ keys args

-- `args[key]`.
unfoldable pub value_at : Bytes → Args → Value
value_at k [] = nil
value_at k ((j, v) ∷ args) = if bytes_eq j k then v else value_at k args

-- A field under the key of errors, with its stack trace.
unfoldable pub error_calls : Err → Option (List Bytes) → List Call
unfolding error_text
error_calls e none = str (codes "error") (error_text e) ∷ []
error_calls e (some stack) = str (codes "error") (error_text e) ∷ strs (codes "stack") stack ∷ []

-- The other fields, by the type of the value.
unfoldable pub typed_calls : Bytes → Value → List Call
unfolding error_text
typed_calls k (string s) = str k s ∷ []
typed_calls k (int i) = call_int k i ∷ []
typed_calls k (int64 i) = call_int64 k i ∷ []
typed_calls k (float64 f) = call_float64 k f ∷ []
typed_calls k (bool b) = call_bool k b ∷ []
typed_calls k (time t) = call_time k t ∷ []
typed_calls k (error_value e stack) = str k (error_text e) ∷ []
typed_calls k nil = interface k nil ∷ []
typed_calls k (other v) = interface k (other v) ∷ []

unfoldable pub under_error : Value → List Call
unfolding error_calls typed_calls
under_error (error_value e stack) = error_calls e stack
under_error (string s) = typed_calls (codes "error") (string s)
under_error (int i) = typed_calls (codes "error") (int i)
under_error (int64 i) = typed_calls (codes "error") (int64 i)
under_error (float64 f) = typed_calls (codes "error") (float64 f)
under_error (bool b) = typed_calls (codes "error") (bool b)
under_error (time t) = typed_calls (codes "error") (time t)
under_error nil = typed_calls (codes "error") nil
under_error (other v) = typed_calls (codes "error") (other v)

unfoldable pub field_calls : Bytes → Value → List Call
unfolding bytes_eq under_error typed_calls
field_calls k v = if bytes_eq k (codes "error") then under_error v else typed_calls k v

unfoldable pub fields_of : List Bytes → Args → List Call
unfolding field_calls value_at
fields_of [] args = []
fields_of (k ∷ ks) args = field_calls k (value_at k args) ++ fields_of ks args

-- `addFields`, on the calls so far.
unfoldable pub add_fields : List Call → Args → List Call
unfolding fields_of sort_keys keys
add_fields event args = event ++ fields_of (sort_keys (keys args)) args

-- The loop over the arguments, where `none` is a `nil` map.
unfoldable pub add_all : List Call → List (Option Args) → List Call
unfolding add_fields
add_all event [] = event
add_all event (none ∷ rest) = add_all event rest
add_all event (some args ∷ rest) = add_all (add_fields event args) rest

-- `write` is the sending of an event with its message.
module _ {W : Type 0} (write : Level → Bytes → List Call → W → W) where
  unfoldable pub log_debug : Bytes → List (Option Args) → W → W
  unfolding add_all
  log_debug msg args = write debug msg (add_all [] args)

  unfoldable pub log_info : Bytes → List (Option Args) → W → W
  unfolding add_all
  log_info msg args = write info msg (add_all [] args)

  unfoldable pub log_warning : Bytes → List (Option Args) → W → W
  unfolding add_all
  log_warning msg args = write warn msg (add_all [] args)

  unfoldable pub log_error : Bytes → Option Err → List (Option Args) → W → W
  unfolding add_all
  log_error msg e args = write error msg (add_all (call_err e ∷ []) args)

  -- `Msg` of an event of the level `fatal` ends the process.
  unfoldable pub log_fatal : Bytes → List (Option Args) → W → Outcome W
  log_fatal msg args w = exited msg

  unfoldable pub fatal_if_err : Bytes → Option Err → List (Option Args) → W → Outcome W
  unfolding log_debug
  fatal_if_err msg (some e) args w = exited msg
  fatal_if_err msg none args w = returned (log_debug msg args w)

-- `WrapError`.
unfoldable pub wrap_error : Option Err → Option Args
wrap_error none = none
wrap_error (some e) = some ((codes "error", error_value e none) ∷ [])
