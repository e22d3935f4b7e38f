-- ===== src/Tables/Connect.antt =====
-- connection.go: `connect` and the two operations that call it.
pub mod Attempt
pub mod Laws
pub mod Opens
use zygote.Common.{
  ℕ, Bool, true, false, Option, none, some, [], ◌∷◌, ◌++◌, if◌then◌else◌, Bytes, codes, ℤ, pos,
  Outcome, returned, exited, Result, ok, err, ◌*◌,
}
use zygote.Common.IntMap.{IntMap, lookup, insert}
use zygote.Strconv.{itoa}
use zygote.Errors.{Err, errorf, error_text}
use zygote.Backoff.{BackoffConfig, retry, second}
use zygote.Tables.{Driver, Handle, ClientConfig, MultiDbConnector, State}

-- `connectionType` is a string; the program makes two of them.
pub data ConnectionType : Type 0 where
  read_conn write_conn : ConnectionType
  other_conn : Bytes → ConnectionType

unfoldable pub type_name : ConnectionType → Bytes
type_name read_conn = codes "read"
type_name write_conn = codes "write"
type_name (other_conn name) = name

-- The map of a type's connections. The third case is not reached.
unfoldable pub conns : ConnectionType → MultiDbConnector → IntMap Handle
conns read_conn m = m.read_conns
conns write_conn m = m.write_conns
conns (other_conn name) m = []

-- `conns[shardIndex] = db`
unfoldable pub store : ConnectionType → ℤ → Handle → MultiDbConnector → MultiDbConnector
store read_conn i h m = record m { read_conns = insert i h m.read_conns }
store write_conn i h m = record m { write_conns = insert i h m.write_conns }
store (other_conn name) i h m = m

unfoldable pub dsn : ClientConfig → ℤ → Bytes
dsn config port =
    config.user
    ++ b':'
      ∷ (config.password
          ++ codes "@tcp("
          ++ config.host
          ++ b':'
            ∷ (itoa port ++ codes ")/" ++ config.database ++ codes "?parseTime=true&tls=sqlTLS"))

-- The three lines that set up the pool of a new handle.
unfoldable pub configure_pool : {W : Type 0} → Driver W → ClientConfig → Handle → W → W
configure_pool d config h w =
    d.set_conn_max_lifetime h config.conn_max_lifetime (
      d.set_max_idle_conns h config.max_idle_conns (d.set_max_open_conns h config.max_open_conns w))

unfoldable pub shard_text : ℤ → ConnectionType → Bytes
shard_text i t = itoa i ++ b' ' ∷ type_name t

module _ {W : Type 0} (d : Driver W) (i : ℤ) (t : ConnectionType) where
  -- The state of the closure in `connect`: also its variable `db`.
  abbrev pub Local : Type 0
  Local = State W × Option Handle

  -- What the test of a new connection leads to.
  unfoldable pub tested : MultiDbConnector → Handle → W × Option Err → Local × Option Err
  tested m h (w, some e) = (
    (record { connector = m; world = (d.close_db h w).0 }, some h),
    some (errorf (codes "failed to ping shard " ++ shard_text i t ++ codes ": " ++ error_text e)),
  )
  tested m h (w, none) = ((record { connector = store t i h m; world = w }, some h), none)

  unfoldable pub opened :
      ClientConfig → MultiDbConnector → W × Result Err Handle → Local × Option Err
  unfolding tested
  opened config m (w, err e) = (
    (record { connector = m; world = w }, none),
    some (
        errorf
          (codes "failed to connect to shard " ++ shard_text i t ++ codes ": " ++ error_text e)),
  )
  opened config m (w, ok h) = tested m h (d.ping h (configure_pool d config h w))

  -- What the test of the connection that is there leads to.
  unfoldable pub checked :
      ℤ → ClientConfig → MultiDbConnector → Handle → W × Option Err → Local × Option Err
  unfolding opened
  checked port config m h (w, none) = ((record { connector = m; world = w }, some h), none)
  checked port config m h (w, some _) = opened config m (d.open_db (dsn config port) w)

  unfoldable pub with_port : ℤ → ClientConfig → State W → Local × Option Err
  unfolding checked
  with_port port config s = elim (lookup i (conns t s.connector)) [
    | none ↦ opened config s.connector (d.open_db (dsn config port) s.world)
    | some h ↦ checked port config s.connector h (d.ping h s.world)
  ]

  -- The `switch` on the type.
  unfoldable pub by_type : ConnectionType → ClientConfig → Local → Local × Option Err
  unfolding with_port
  by_type read_conn config (s, db) = with_port config.read_port config s
  by_type write_conn config (s, db) = with_port config.write_port config s
  by_type (other_conn name) config (s, db) =
      ((s, db), some (errorf (codes "invalid connection type: " ++ name)))

  -- The closure that `connect` retries.
  unfoldable pub attempt : Local → Local × Option Err
  unfolding by_type
  attempt (s, db) = elim (lookup i s.connector.configs) [
    | none ↦ (
      (s, db),
      some (errorf (codes "configuration for shard index " ++ itoa i ++ codes " not found")),
    )
    | some config ↦ by_type t config (s, db)
  ]

  -- `select` in the retries.
  unfoldable pub local_wait : ℤ → Local → Local × Option Err
  local_wait delay (s, db) =
      let (w, stopped) = d.wait delay s.world in ((record s { world = w }, db), stopped)

  abbrev pub connect_backoff : BackoffConfig
  connect_backoff = record {
    max_attempts = pos 3;
    initial_delay = pos (5 * second);
    max_delay = pos (60 * second);
  }

  unfoldable pub registered : MultiDbConnector → W × Option Err → Outcome (Local × Option Err)
  unfolding attempt local_wait
  registered m (w, some e) = exited (codes "Register TLS config")
  registered m (w, none) =
      returned
        (retry connect_backoff local_wait attempt (record { connector = m; world = w }, none))

  -- `connect`, on the host that is named `host`. It returns the handle, if any, and an error.
  unfoldable pub connect : Bytes → State W → Outcome (Local × Option Err)
  unfolding registered
  connect host s = registered s.connector (d.register_tls_config host s.world)
