-- ===== src/Tables/Connect/Attempt.antt =====
-- One attempt of `connect`: what it changes, and what it has done when it reports no error.
use zygote.Common.{Option, none, some, ◌≡◌, refl, ◌⊎◌, inl, inr, ℤ, Option-cases, ok, err, Result}
use zygote.Common.IntMap.{IntMap, lookup, insert, lookup-insert, eqb_ℤ_refl}
use zygote.Errors.{Err}
use zygote.Tables.{Driver, Handle, ClientConfig, MultiDbConnector, State}
use zygote.Tables.Connect.{
  ConnectionType, read_conn, write_conn, other_conn, conns, store, Local, tested, opened, checked,
  with_port, by_type, attempt, configure_pool, dsn,
}

lookup-insert_self : (i : ℤ) (h : Handle) (m : IntMap Handle) → lookup i (insert i h m) ≡ some h
lookup-insert_self i h m = rw (lookup-insert, eqb_ℤ_refl i)

module _ {W : Type 0} (d : Driver W) (i : ℤ) (t : ConnectionType) where
  -- What a connector `m` has become. After an error it is as it was; without one, the handle that is
  -- returned is the one that was there, or a new one that has been stored.
  abbrev pub Post : MultiDbConnector → Local d i t × Option Err → Type 0
  Post m ((s, db), some e) = s.connector ≡ m
  Post m ((s, db), none) =
      (h : Handle) × (db ≡ some h)
      × (((s.connector ≡ m) × (lookup i (conns t m) ≡ some h)) ⊎ (s.connector ≡ store t i h m))

  tested-Post :
      (m : MultiDbConnector) (h : Handle) (p : W × Option Err) → Post m (tested d i t m h p)
  unfolding tested
  tested-Post m h (w, none) = (h, refl, inr refl)
  tested-Post m h (w, some e) = refl

  opened-Post :
      (config : ClientConfig) (m : MultiDbConnector) (p : W × Result Err Handle)
      → Post m (opened d i t config m p)
  unfolding opened
  opened-Post config m (w, err e) = refl
  opened-Post config m (w, ok h) = tested-Post m h (d.ping h (configure_pool d config h w))

  checked-Post :
      (port : ℤ) (config : ClientConfig) (m : MultiDbConnector) (h : Handle) (p : W × Option Err)
      → lookup i (conns t m) ≡ some h
      → Post m (checked d i t port config m h p)
  unfolding checked
  checked-Post port config m h (w, none) e = (h, refl, inl (refl, e))
  checked-Post port config m h (w, some _) e = opened-Post config m (d.open_db (dsn config port) w)

  with_port-Post :
      (port : ℤ) (config : ClientConfig) (s : State W)
      → Post s.connector (with_port d i t port config s)
  unfolding with_port
  with_port-Post port config s = elim (Option-cases (lookup i (conns t s.connector))) [
    | inl e ↦ rw (with_port, e) (opened-Post config s.connector _)
    | inr (h, e) ↦ rw (with_port, e) (checked-Post port config s.connector h _ e)
  ]

  by_type-Post :
      (u : ConnectionType) (config : ClientConfig) (l : Local d i t)
      → Post l.0.connector (by_type d i t u config l)
  unfolding by_type
  by_type-Post read_conn config (s, db) = with_port-Post config.read_port config s
  by_type-Post write_conn config (s, db) = with_port-Post config.write_port config s
  by_type-Post (other_conn name) config (s, db) = refl

  pub attempt-Post : (l : Local d i t) → Post l.0.connector (attempt d i t l)
  unfolding attempt
  attempt-Post (s, db) = elim (Option-cases (lookup i s.connector.configs)) [
    | inl e ↦ rw (attempt, e) refl
    | inr (config, e) ↦ rw (attempt, e) (by_type-Post t config (s, db))
  ]
