-- ===== src/Tables/Close.antt =====
-- connection.go: looking connections up, and closing them.
pub mod Laws
pub mod Errors
use zygote.Common.{
  ℕ, Bool, true, false, Option, none, some, List, [], ◌∷◌, ◌++◌, Bytes, codes, ℤ, Result, ok, err,
  map,
}
use zygote.Common.IntMap.{IntMap, lookup, delete}
use zygote.Strconv.{itoa}
use zygote.Errors.{Err, errorf, error_text}
use zygote.Tables.{Driver, Handle, MultiDbConnector, State}
use zygote.Tables.Connect.{ConnectionType, read_conn, write_conn, other_conn, type_name, conns}

unfoldable pub get_connection : ConnectionType → ℤ → MultiDbConnector → Result Err Handle
get_connection t i m = elim (lookup i (conns t m)) [
  | none ↦
      err (errorf (codes "no " ++ type_name t ++ codes " connection found for shard " ++ itoa i))
  | some h ↦ ok h
]

unfoldable pub get_read_connection : ℤ → MultiDbConnector → Result Err Handle
unfolding get_connection
get_read_connection = get_connection read_conn

unfoldable pub get_write_connection : ℤ → MultiDbConnector → Result Err Handle
unfolding get_connection
get_write_connection = get_connection write_conn

-- `delete` on the map of a type.
unfoldable pub forget : ConnectionType → ℤ → MultiDbConnector → MultiDbConnector
forget read_conn i m = record m { read_conns = delete i m.read_conns }
forget write_conn i m = record m { write_conns = delete i m.write_conns }
forget (other_conn name) i m = m

-- The text of a list of errors, as `%v` prints it.
unfoldable pub texts : List Err → Bytes
texts [] = []
texts (e ∷ []) = error_text e
texts (e ∷ (f ∷ es)) = error_text e ++ b' ' ∷ texts (f ∷ es)

module _ {W : Type 0} (d : Driver W) where
  unfoldable pub close_error : ConnectionType → ℤ → Err → Err
  close_error t i e = errorf (
      codes "failed to close "
      ++ type_name t
      ++ codes " connection for shard "
      ++ itoa i
      ++ codes ": "
      ++ error_text e)

  -- The error of a close, added to the errors so far.
  unfoldable pub note : ConnectionType → ℤ → Option Err → List Err → List Err
  unfolding close_error
  note t i none errs = errs
  note t i (some e) errs = errs ++ close_error t i e ∷ []

  -- One of the two halves of `Close`.
  unfoldable pub close_half : ConnectionType → ℤ → State W × List Err → State W × List Err
  unfolding note forget
  close_half t i (s, errs) = elim (lookup i (conns t s.connector)) [
    | none ↦ (s, errs)
    | some h ↦
        let r = d.close_db h s.world in
        (record { connector = forget t i s.connector; world = r.0 }, note t i r.1 errs)
  ]

  unfoldable pub report : Bytes → List Err → Option Err
  unfolding texts
  report prefix [] = none
  report prefix (e ∷ es) = some (errorf (prefix ++ b'[' ∷ (texts (e ∷ es) ++ b']' ∷ [])))

  unfoldable pub close : ℤ → State W → State W × Option Err
  unfolding close_half report
  close i s =
      let (s', errs) = close_half write_conn i (close_half read_conn i (s, [])) in
      (s', report (codes "errors closing connections for shard " ++ itoa i ++ codes ": ") errs)

  -- A `range` loop that closes each entry and deletes it.
  unfoldable pub close_entries :
      ConnectionType → IntMap Handle → State W × List Err → State W × List Err
  unfolding note forget
  close_entries t [] (s, errs) = (s, errs)
  close_entries t ((i, h) ∷ rest) (s, errs) =
      let r = d.close_db h s.world in
      close_entries t rest
        (record { connector = forget t i s.connector; world = r.0 }, note t i r.1 errs)

  unfoldable pub close_all : State W → State W × Option Err
  unfolding close_entries report
  close_all s =
      let (s', errs) = close_entries read_conn s.connector.read_conns (s, []) in
      let (s'', errs') = close_entries write_conn s'.connector.write_conns (s', errs) in
      (s'', report (codes "errors closing connections: ") errs')
