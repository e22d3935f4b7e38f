-- ===== src/Tables/Pools.antt =====
-- connection.go, as the clients of a connector see it: for each purpose and shard a handle, or none.
-- The operations of a connector in a sequence, and the steps that a client may see.
pub mod Refines
use zygote.Common.{
  Bool, true, false, Option, none, some, List, [], ◌∷◌, ◌≡◌, if◌then◌else◌, Bytes, ℤ, eqb_ℤ,
  Outcome, returned, ◌>>=◌, Result, ok, err,
}
use zygote.Common.IntMap.{lookup}
use zygote.Errors.{Err}
use zygote.Tables.{Driver, Handle, MultiDbConnector, State}
use zygote.Tables.Connect.{ConnectionType, read_conn, write_conn, connect}
use zygote.Tables.Close.{get_read_connection, get_write_connection, close, close_all}

-- What a connection is for: the exported operations come in these two kinds.
pub data Purpose : Type 0 where
  reading writing : Purpose

abbrev pub type_for : Purpose → ConnectionType
type_for reading = read_conn
type_for writing = write_conn

abbrev pub is_same : Purpose → Purpose → Bool
is_same reading reading = true
is_same writing writing = true
is_same _ _ = false

-- The operations of a connector on a shard, and `CloseAll`.
pub data Op : Type 0 where
  looking connecting : Purpose → ℤ → Op
  closing : ℤ → Op
  closing_all : Op

-- The handle and the error that an operation returns.
abbrev pub Reply : Type 0
Reply = Option Handle × Option Err

-- The abstract state: a handle for a purpose and a shard, or none.
abbrev pub Pools : Type 0
Pools = Purpose → ℤ → Option Handle

abbrev pub put : Purpose → ℤ → Handle → Pools → Pools
put p i h v q j = if is_same p q then (if eqb_ℤ i j then some h else v q j) else v q j

abbrev pub without : ℤ → Pools → Pools
without i v q j = if eqb_ℤ i j then none else v q j

abbrev pub no_pools : Pools
no_pools q j = none

-- One operation on the abstract state, with its reply. A connection that is refused changes nothing;
-- one that is granted is a handle, and this is stored; closing forgets, whatever it reports.
pub data Step : Op → Reply → Pools → Pools → Type 0 where
  found :
      {p : Purpose} {i : ℤ} {h : Handle} {v : Pools}
      → v p i ≡ some h
      → Step (looking p i) (some h, none) v v
  missing :
      {p : Purpose} {i : ℤ} {e : Err} {v : Pools}
      → v p i ≡ none
      → Step (looking p i) (none, some e) v v
  granted :
      {p : Purpose} {i : ℤ} {h : Handle} {v : Pools}
      → Step (connecting p i) (some h, none) v (put p i h v)
  refused :
      {p : Purpose} {i : ℤ} {db : Option Handle} {e : Err} {v : Pools}
      → Step (connecting p i) (db, some e) v v
  closed : {i : ℤ} {e : Option Err} {v : Pools} → Step (closing i) (none, e) v (without i v)
  cleared : {e : Option Err} {v : Pools} → Step closing_all (none, e) v no_pools

pub data Steps : List Op → List Reply → Pools → Pools → Type 0 where
  at_rest : {v : Pools} → Steps [] [] v v
  after_step :
      {o : Op} {r : Reply} {ops : List Op} {rs : List Reply} {u v w : Pools}
      → Step o r u v
      → Steps ops rs v w
      → Steps (o ∷ ops) (r ∷ rs) u w

-- The abstract state of a connector.
unfoldable pub view : MultiDbConnector → Pools
view m reading j = lookup j m.read_conns
view m writing j = lookup j m.write_conns

-- What a lookup replies.
abbrev pub looked : Result Err Handle → Reply
looked (ok h) = (some h, none)
looked (err e) = (none, some e)

module _ {W : Type 0} (d : Driver W) (host : Bytes) where
  -- One operation of the program, with its reply.
  unfoldable pub exec_op : Op → State W → Outcome (State W × Reply)
  exec_op (looking reading i) s = returned (s, looked (get_read_connection i s.connector))
  exec_op (looking writing i) s = returned (s, looked (get_write_connection i s.connector))
  exec_op (connecting p i) s = do
    r ← connect d i (type_for p) host s
    returned (r.0.0, (r.0.1, r.1))
  exec_op (closing i) s = let r = close d i s in returned (r.0, (none, r.1))
  exec_op closing_all s = let r = close_all d s in returned (r.0, (none, r.1))

  unfoldable pub exec_ops : List Op → State W → Outcome (State W × List Reply)
  exec_ops [] s = returned (s, [])
  exec_ops (o ∷ ops) s = do
    r ← exec_op o s
    rest ← exec_ops ops r.0
    returned (rest.0, r.1 ∷ rest.1)
