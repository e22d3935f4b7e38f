-- ===== src/Tables/Connect/Laws.antt =====
-- What `connect` promises.
use zygote.Common.{
  Option, none, some, ◌≡◌, ◌≢◌, refl, sym, ap, ◌∙◌, ◌⊎◌, inl, inr, ℤ, arith, Bytes, returned,
  if◌then◌else◌, eqb_ℤ, eqb_ℤ_iff,
}
use zygote.Common.IntMap.{lookup, lookup-insert, eqb_ℤ_refl}
use zygote.Errors.{Err}
use zygote.Backoff.{retry}
use zygote.Backoff.Sound.{retry-Succeeds}
use zygote.Backoff.Invariant.{retry-keeps}
use zygote.Tables.{Driver, Handle, MultiDbConnector, State}
use zygote.Tables.Connect.{
  ConnectionType, read_conn, write_conn, other_conn, conns, store, Local, attempt, local_wait,
  connect, registered, connect_backoff,
}
use zygote.Tables.Connect.Attempt.{Post, attempt-Post}

-- One of the two types that the program makes.
abbrev pub IsMade : ConnectionType → Type 0
IsMade t = (t ≡ read_conn) ⊎ (t ≡ write_conn)

pub lookup-store :
    (t : ConnectionType) (i j : ℤ) (h : Handle) (m : MultiDbConnector)
    → IsMade t
    → lookup j (conns t (store t i h m)) ≡ (if eqb_ℤ i j then some h else lookup j (conns t m))
unfolding conns store
lookup-store read_conn i j h m made = lookup-insert i j h m.read_conns
lookup-store write_conn i j h m made = lookup-insert i j h m.write_conns
lookup-store (other_conn name) i j h m made = ground arith

-- Only the handle of one shard in the map of one type may differ.
pub record Frame (i : ℤ) (t : ConnectionType) (m m' : MultiDbConnector) : Type 0 where
  pub same_configs : m'.configs ≡ m.configs
  pub same_database : m'.database ≡ m.database
  pub same_network : m'.network ≡ m.network
  pub other_types : (u : ConnectionType) → u ≢ t → conns u m' ≡ conns u m
  pub other_shards : (j : ℤ) → i ≢ j → lookup j (conns t m') ≡ lookup j (conns t m)

Frame-refl : (i : ℤ) (t : ConnectionType) (m : MultiDbConnector) → Frame i t m m
Frame-refl i t m = record {
  same_configs = refl;
  same_database = refl;
  same_network = refl;
  other_types = λ u n. refl;
  other_shards = λ j n. refl;
}

pub conns-store :
    (t u : ConnectionType) (i : ℤ) (h : Handle) (m : MultiDbConnector)
    → u ≢ t
    → conns u (store t i h m) ≡ conns u m
unfolding conns store
conns-store read_conn read_conn i h m n = absurd (n refl)
conns-store read_conn write_conn i h m n = refl
conns-store read_conn (other_conn name) i h m n = refl
conns-store write_conn read_conn i h m n = refl
conns-store write_conn write_conn i h m n = absurd (n refl)
conns-store write_conn (other_conn name) i h m n = refl
conns-store (other_conn name) u i h m n = refl

lookup-store_ne :
    (t : ConnectionType) (i j : ℤ) (h : Handle) (m : MultiDbConnector)
    → i ≢ j
    → lookup j (conns t (store t i h m)) ≡ lookup j (conns t m)
unfolding conns store
lookup-store_ne read_conn i j h m n =
    ground (arith, lookup-insert i j h m.read_conns, eqb_ℤ_iff i j)
lookup-store_ne write_conn i j h m n =
    ground (arith, lookup-insert i j h m.write_conns, eqb_ℤ_iff i j)
lookup-store_ne (other_conn name) i j h m n = refl

store_configs :
    (t : ConnectionType) (i : ℤ) (h : Handle) (m : MultiDbConnector)
    → (store t i h m).configs ≡ m.configs
unfolding store
store_configs read_conn i h m = refl
store_configs _ i h m = refl

store_names :
    (t : ConnectionType) (i : ℤ) (h : Handle) (m : MultiDbConnector)
    → ((store t i h m).database ≡ m.database) × ((store t i h m).network ≡ m.network)
unfolding store
store_names read_conn i h m = (refl, refl)
store_names _ i h m = (refl, refl)

Frame-store :
    (t : ConnectionType) (i : ℤ) (h : Handle) (m m' : MultiDbConnector)
    → Frame i t m m'
    → Frame i t m (store t i h m')
Frame-store t i h m m' f = record {
  same_configs = store_configs t i h m' ∙ f.same_configs;
  same_database = (store_names t i h m').0 ∙ f.same_database;
  same_network = (store_names t i h m').1 ∙ f.same_network;
  other_types = λ u n. conns-store t u i h m' n ∙ f.other_types u n;
  other_shards = λ j n. lookup-store_ne t i j h m' n ∙ f.other_shards j n;
}

module _ {W : Type 0} (d : Driver W) (i : ℤ) (t : ConnectionType) where
  Post-Frame :
      (m m' : MultiDbConnector) (r : Local d i t × Option Err)
      → Frame i t m m'
      → Post d i t m' r
      → Frame i t m r.0.0.connector
  Post-Frame m m' ((s, db), some e) f p = rw p f
  Post-Frame m m' ((s, db), none) f (h, _, inl (e, _)) = rw e f
  Post-Frame m m' ((s, db), none) f (h, _, inr e) = rw e (Frame-store t i h m m' f)

  Post-lookup :
      (m : MultiDbConnector) (s : State W) (db : Option Handle)
      → IsMade t
      → Post d i t m ((s, db), none)
      → (h : Handle) × (db ≡ some h) × (lookup i (conns t s.connector) ≡ some h)
  Post-lookup m s db made (h, here, inl (e, found)) = (h, here, rw e found)
  Post-lookup m s db made (h, here, inr e) =
      (h, here, rw (e, lookup-store t i i h m made, eqb_ℤ_refl i))

  unfoldable pub retried : State W → Local d i t × Option Err
  retried s = retry (connect_backoff d i t) (local_wait d i t) (attempt d i t) (s, none)

  retried-Frame : (s : State W) → Frame i t s.connector (retried s).0.0.connector
  unfolding retried local_wait
  retried-Frame s =
      retry-keeps (connect_backoff d i t) (local_wait d i t) (attempt d i t)
        (λ l. Frame i t s.connector l.0.connector)
        (λ l f. Post-Frame s.connector l.0.connector (attempt d i t l) f (attempt-Post d i t l))
        (λ delay l f. f) (s, none) (Frame-refl i t s.connector)

  registered_cases :
      (m : MultiDbConnector) (p : W × Option Err) (r : Local d i t × Option Err)
      → registered d i t m p ≡ returned r
      → (w : W) × (r ≡ retried (record { connector = m; world = w }))
  unfolding registered retried
  registered_cases m (w, none) r e = (w, cc)
  registered_cases m (w, some x) r e = cc

  pub connect_cases :
      (host : Bytes) (s : State W) (r : Local d i t × Option Err)
      → connect d i t host s ≡ returned r
      → (w : W) × (r ≡ retried (record { connector = s.connector; world = w }))
  unfolding connect
  connect_cases host s r e = registered_cases s.connector (d.register_tls_config host s.world) r e

  pub connect-Frame :
      (host : Bytes) (s s' : State W) (db : Option Handle) (e : Option Err)
      → connect d i t host s ≡ returned ((s', db), e)
      → Frame i t s.connector s'.connector
  connect-Frame host s s' db e h =
      let (w, same) = connect_cases host s ((s', db), e) h in
      rw (ap (λ r. r.0.0) same) (retried-Frame (record { connector = s.connector; world = w }))

  -- Without an error, `connect` for reading or for writing returns a handle, and this is the one
  -- that the map of its type holds for its shard from then on.
  pub connect-lookup :
      (host : Bytes) (s s' : State W) (db : Option Handle)
      → IsMade t
      → connect d i t host s ≡ returned ((s', db), none)
      → (h : Handle) × (db ≡ some h) × (lookup i (conns t s'.connector) ≡ some h)
  unfolding retried
  connect-lookup host s s' db made e =
      let (w, same) = connect_cases host s ((s', db), none) e in
      let (k, u, below, reached, done) =
        retry-Succeeds (connect_backoff d i t) (local_wait d i t) (attempt d i t)
          (record { connector = s.connector; world = w }, none) (s', db) (sym same) in
      Post-lookup u.0.connector s' db made (rw done at (attempt-Post d i t u))
