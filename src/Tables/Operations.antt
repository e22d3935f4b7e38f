-- ===== src/Tables/Operations.antt =====
-- connection.go: an operation on a connection, retried.
pub mod Laws
use zygote.Common.{
  ℕ, Bool, true, false, Option, none, some, List, [], ◌∷◌, ◌++◌, if◌then◌else◌, Bytes, codes, ℤ,
  pos, Result, ok, err, ◌*◌,
}
use zygote.Strconv.{itoa}
use zygote.Errors.{Err, errorf, error_text, permanent, is_transient_error}
use zygote.Backoff.{BackoffConfig, retry, second}
use zygote.Tables.{Driver, Handle, MultiDbConnector}
use zygote.Tables.Connect.{ConnectionType, read_conn, write_conn, other_conn}
use zygote.Tables.Close.{get_connection, get_read_connection, get_write_connection}

abbrev pub operation_backoff : BackoffConfig
operation_backoff = record {
  max_attempts = pos 3;
  initial_delay = pos 100_000_000;
  max_delay = pos (20 * second);
}

unfoldable pub op_type : Bool → Bytes
op_type is_write = if is_write then codes "write" else codes "read"

-- `W` is the state that the operation acts on, the handles among it.
module _ {W : Type 0} (wait : ℤ → W → W × Option Err) (i : ℤ) where
  -- The error that the closure returns for an error of the operation.
  unfoldable pub classified : Bool → Err → Err
  unfolding op_type
  classified is_write e =
      if is_transient_error e
      then e
      else permanent (
          errorf (
            op_type is_write
            ++ codes " operation failed for shard "
            ++ itoa i
            ++ codes ": "
            ++ error_text e))

  unfoldable pub classify : Bool → W × Option Err → W × Option Err
  classify is_write (w, none) = (w, none)
  classify is_write (w, some e) = (w, some (classified is_write e))

  unfoldable pub no_connection : Bool → Err → Err
  unfolding op_type
  no_connection is_write e = errorf (
      codes "failed to get "
      ++ op_type is_write
      ++ codes " connection for shard "
      ++ itoa i
      ++ codes ": "
      ++ error_text e)

  unfoldable pub on_connection :
      (Handle → W → W × Option Err) → Bool → Result Err Handle → W → W × Option Err
  unfolding classify
  on_connection operation is_write (err e) w = (w, some (no_connection is_write e))
  on_connection operation is_write (ok h) w =
      retry operation_backoff wait (λ u. classify is_write (operation h u)) w

  unfoldable pub retry_operation :
      MultiDbConnector → (Handle → W → W × Option Err) → Bool → W → W × Option Err
  unfolding on_connection
  retry_operation m operation is_write =
      on_connection operation is_write
        (if is_write then get_write_connection i m else get_read_connection i m)

  unfoldable pub retry_read_operation :
      MultiDbConnector → (Handle → W → W × Option Err) → W → W × Option Err
  unfolding retry_operation
  retry_read_operation m operation = retry_operation m operation false

  unfoldable pub retry_write_operation :
      MultiDbConnector → (Handle → W → W × Option Err) → W → W × Option Err
  unfolding retry_operation
  retry_write_operation m operation = retry_operation m operation true
