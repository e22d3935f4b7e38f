-- ===== src/Tables/Connect/Opens.antt =====
-- When `connect` succeeds.
use zygote.Common.{none, some, ◌≡◌, ℤ, ok}
use zygote.Common.IntMap.{lookup}
use zygote.Tables.{Driver, Handle, ClientConfig, State}
use zygote.Tables.Connect.{ConnectionType, write_conn, conns, store, Local, dsn, configure_pool}
use zygote.Tables.Connect.Laws.{IsMade}

abbrev pub port_of : ConnectionType → ClientConfig → ℤ
port_of write_conn config = config.write_port
port_of _ config = config.read_port

module _ {W : Type 0} (d : Driver W) (i : ℤ) (t : ConnectionType) (made : IsMade t) where
  module _ (config : ClientConfig) (s : State W) (u v : W) (h : Handle)
      (there : lookup i s.connector.configs ≡ some config)
      (gone : lookup i (conns t s.connector) ≡ none)
      (opens : d.open_db (dsn config (port_of t config)) s.world ≡ (u, ok h))
      (pings : d.ping h (configure_pool d config h u) ≡ (v, none)) where
    -- What is left: the new handle, in the map of its type.
    abbrev pub fresh : Local d i t
    fresh = (record { connector = store t i h s.connector; world = v }, some h)
