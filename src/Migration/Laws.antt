-- ===== src/Migration/Laws.antt =====
-- When a migration has been run.
use mathlib.Core.Path.{subst}
use zygote.Common.{
  true, false, Option, none, some, ◌++◌, codes, pos, Result, ok, err, ◌≡◌, refl, ap, ◌⊎◌, inl, inr,
  Bool-cases,
}
use zygote.Strings.{bytes_eq}
use zygote.Errors.{Err, error_text}
use zygote.Tables.{Handle}
use zygote.Tables.Close.{get_write_connection}
use zygote.Migration.{
  Migrate, Migrator, Migration, from_source, from_driver, migrate, unless_no_change, with_migrator,
  on_first_shard, migrated, up, down,
}

module _ {W : Type 0} (g : Migrate W) (m : Migration) where
  -- A migrator for the directory, on the write connection of the first shard: from the state `w` to
  -- the state `u`.
  abbrev pub Ready : W → W → Migrator → Type 0
  Ready w u k =
      (db : Handle) × (driver : Handle) × (v : W) × (get_write_connection (pos 0) m.connector
        ≡ ok db)
      × (g.with_instance db w ≡ (v, ok driver))
      × (g.new_with_database_instance (codes "file://" ++ m.directory) driver v ≡ (u, ok k))

  from_source-ok :
      (p : W × Result Err Migrator) (u : W) (k : Migrator)
      → from_source g m p ≡ (u, ok k)
      → p ≡ (u, ok k)
  unfolding from_source
  from_source-ok (w, ok j) u k h = h
  from_source-ok (w, err e) u k h = cc

  from_driver-ok :
      (p : W × Result Err Handle) (u : W) (k : Migrator)
      → from_driver g m p ≡ (u, ok k)
      → (driver : Handle) × (v : W) × (p ≡ (v, ok driver))
        × (g.new_with_database_instance (codes "file://" ++ m.directory) driver v ≡ (u, ok k))
  unfolding from_driver
  from_driver-ok (w, err e) u k h = cc
  from_driver-ok (w, ok driver) u k h = (driver, w, refl, from_source-ok _ u k h)

  with_migrator-none :
      (run : Migrator → W → W × Option Err) (p : W × Result Err Migrator) (x : W)
      → with_migrator g m run p ≡ (x, none)
      → (u : W) × (k : Migrator) × (p ≡ (u, ok k)) × (run k u ≡ (x, none))
  unfolding with_migrator
  with_migrator-none run (w, err e) x h = cc
  with_migrator-none run (w, ok k) x h = (w, k, refl, h)

  on_first_shard-none :
      (run : Migrator → W → W × Option Err) (c : Result Err Handle) (w x : W)
      → get_write_connection (pos 0) m.connector ≡ c
      → on_first_shard g m run c w ≡ (x, none)
      → (u : W) × (k : Migrator) × Ready w u k × (run k u ≡ (x, none))
  unfolding on_first_shard migrate
  on_first_shard-none run (err e) w x c h = cc
  on_first_shard-none run (ok db) w x c h =
      let (u, k, made, ran) = with_migrator-none run (migrate g m db w) x h in
      let (driver, v, instance, source) = from_driver-ok (g.with_instance db w) u k made in
      (u, k, (db, driver, v, c, instance, source), ran)

  -- A migration that has done its work, or had nothing to do.
  abbrev pub Done : W × Option Err → W → Type 0
  Done r v =
      (r ≡ (v, none))
      ⊎ ((e : Err) × (r ≡ (v, some e)) × (bytes_eq (error_text e) (codes "no change") ≡ true))

  unless_no_change-Done :
      (next : W → W × Option Err) (r : W × Option Err) (x : W)
      → unless_no_change g m next r ≡ (x, none)
      → (v : W) × Done r v × (next v ≡ (x, none))
  unfolding unless_no_change
  unless_no_change-Done next (w, none) x h = (w, inl refl, h)
  unless_no_change-Done next (w, some e) x h =
      elim (Bool-cases (bytes_eq (error_text e) (codes "no change"))) [
        | inl same ↦ (w, inr (e, refl, same), rw same at h)
        | inr other ↦ absurd (cc (rw other at h))
      ]

  migrated-none :
      (run : Migrator → W → W × Option Err) (w x : W)
      → g.path_exists m.directory w ≡ true
      → migrated g m run w ≡ (x, none)
      → (u : W) × (k : Migrator) × Ready w u k × (run k u ≡ (x, none))
  unfolding migrated
  migrated-none run w x there h =
      on_first_shard-none run (get_write_connection (pos 0) m.connector) w x refl (rw there at h)

  -- Where there is a directory of migrations and `Down` returns no error, a migrator for the directory
  -- on the write connection of the first shard has migrated down, or had nothing to change, and then
  -- the version has been read.
  pub down-Done :
      (w x : W)
      → g.path_exists m.directory w ≡ true
      → down g m w ≡ (x, none)
      → (u : W) × (k : Migrator) × (v : W) × Ready w u k
        × Done (g.down k u) v
        × (g.version k v ≡ (x, none))
  unfolding down
  down-Done w x there h =
      let (u, k, ready, ran) =
        migrated-none (λ k v. unless_no_change g m (g.version k) (g.down k v)) w x there h in
      let (v, done, rest) = unless_no_change-Done (g.version k) (g.down k u) x ran in
      (u, k, v, ready, done, rest)

  -- Where there is a directory of migrations and `Up` returns no error, a migrator for the directory on
  -- the write connection of the first shard has migrated up, or had nothing to change.
  up-Done :
      (w x : W)
      → g.path_exists m.directory w ≡ true
      → up g m w ≡ (x, none)
      → (u : W) × (k : Migrator) × Ready w u k × Done (g.up k u) x
  unfolding up
  up-Done w x there h =
      let stop : W → W × Option Err = λ v. (v, none) in
      let (u, k, ready, ran) =
        migrated-none (λ k v. unless_no_change g m stop (g.up k v)) w x there h in
      let (v, done, rest) = unless_no_change-Done stop (g.up k u) x ran in
      (u, k, ready, subst (Done (g.up k u)) (ap (λ r. r.0) rest) done)

  -- Where there is no directory of migrations nothing is done, and there is no error.
  pub up_missing :
      (w : W)
      → g.path_exists m.directory w ≡ false
      → (up g m w ≡ (w, none)) × (down g m w ≡ (w, none))
  unfolding up down migrated
  up_missing w gone = (rw gone, rw gone)
