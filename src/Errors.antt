-- ===== src/Errors.antt =====
-- Go's `error` values, as far as the program looks at them: their text, what `%w` wraps, and the
-- kinds that lib/cluster/tables/connection.go tells apart.
use zygote.Common.{ℕ, Bool, true, false, ◌||◌, ◌++◌, Bytes, codes, ◌==◌}
use zygote.Strings.{contains, to_lower}

-- `permanent` is the wrapper of `backoff.Permanent`, which shows the text of what it wraps and, in
-- the version that go.mod names, is not unwrapped by `errors.Is`.
pub data Err : Type 0 where
  errorf : Bytes → Err
  wrap : Bytes → Err → Err
  mysql_error : ℕ → Bytes → Err
  conn_done no_rows : Err
  permanent : Err → Err

-- `err.Error()`.
unfoldable pub error_text : Err → Bytes
error_text (errorf text) = text
error_text (wrap prefix e) = prefix ++ error_text e
error_text (mysql_error number text) = text
error_text conn_done = codes "sql: connection is already closed"
error_text no_rows = codes "sql: no rows in result set"
error_text (permanent e) = error_text e

-- `errors.Is(err, sql.ErrConnDone) || errors.Is(err, sql.ErrNoRows)`
unfoldable pub is_done_or_empty : Err → Bool
is_done_or_empty (errorf text) = false
is_done_or_empty (wrap prefix e) = is_done_or_empty e
is_done_or_empty (mysql_error number text) = false
is_done_or_empty conn_done = true
is_done_or_empty no_rows = true
is_done_or_empty (permanent e) = false

text_is_transient : Bytes → Bool
unfolding contains to_lower
text_is_transient text =
    contains (to_lower text) (codes "connection refused")
    || contains (to_lower text) (codes "bad connection")
    || contains (to_lower text) (codes "network")

-- `isTransientError` of an error that is not nil and not one of the two above.
of_kind : Err → Bool
unfolding text_is_transient error_text
of_kind (mysql_error number text) = number == 2006 || number == 2013
of_kind (errorf text) = text_is_transient text
of_kind (wrap prefix e) = text_is_transient (error_text (wrap prefix e))
of_kind conn_done = text_is_transient (error_text conn_done)
of_kind no_rows = text_is_transient (error_text no_rows)
of_kind (permanent e) = text_is_transient (error_text (permanent e))

unfoldable pub is_transient_error : Err → Bool
unfolding is_done_or_empty of_kind
is_transient_error e = elim (is_done_or_empty e) [ true ↦ false | false ↦ of_kind e ]
