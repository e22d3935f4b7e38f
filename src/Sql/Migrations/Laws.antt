-- ===== src/Sql/Migrations/Laws.antt =====
-- Which columns can be made, and which files an action has written.
use zygote.Common.{
  Bool, true, false, Option, none, some, List, [], ◌++◌, if◌then◌else◌, Bytes, codes, ℤ, ◌≡◌, refl,
  ap, ◌∙◌, Bool-cases, inl, inr, Result, ok, err,
}
use zygote.Strings.{bytes_eq}
use zygote.Errors.{Err, errorf}
use zygote.Cluster.{or_default}
use zygote.Sql.Migrations.{
  SqlMigration, Files, save, dir_made, up_written, sql_file, resolve_default_value, create_column,
  column_of,
}
use zygote.Sql.Migrations.Generate.{
  sql_col, saved, save_made, required, generate_column, generate_index,
}

either : (P : Bytes → Type 0) (b : Bool) (x y : Bytes) → P x → P y → P (if b then x else y)
either P true x y px py = px
either P false x y px py = py

abbrev pub Supported : Bytes → Type 0
Supported t = (v : Bytes) × (resolve_default_value t ≡ ok v)

-- The types that a column gets.
sql_col_cases :
    (P : Bytes → Type 0) (t : Bytes)
    → P (codes "VARCHAR(255)")
    → P (codes "INT")
    → P (codes "DOUBLE")
    → P (codes "BOOLEAN")
    → P (codes "MEDIUMBLOB")
    → P (codes "JSON")
    → P (codes "CHAR(36)")
    → P (codes "MEDIUMTEXT")
    → P (sql_col t)
unfolding sql_col
sql_col_cases P t a b c d e f g h = either P _ _ _ a (
    either P _ _ _ b (
      either P _ _ _ c (
        either P _ _ _ d
          (either P _ _ _ e (either P _ _ _ f (either P _ _ _ g (either P _ _ _ h a)))))))

sql_col-Supported : (t : Bytes) → Supported (sql_col t)
unfolding resolve_default_value
sql_col-Supported t =
    sql_col_cases Supported t (codes "''", refl) (codes "0", refl) (codes "0.0", refl)
      (codes "false", refl) (codes "''", refl) (codes "NULL", refl) (codes "''", refl)
      (codes "''", refl)

-- Every type that the command line can name becomes a type for which a column can be made.
pub create_column-sql_col :
    (db_name table name t : Bytes)
    → (m : SqlMigration) × (create_column db_name table name (sql_col t) ≡ ok m)
unfolding create_column
create_column-sql_col db_name table name t =
    let (v, e) = sql_col-Supported t in (_, ap (column_of db_name table name (sql_col t)) e ∙ refl)

module _ {W : Type 0} (f : Files W) where
  up_written-none :
      (m : SqlMigration) (nano : ℤ) (r : W × Option Err) (v : W)
      → up_written f m nano r ≡ (v, none)
      → (b : W) × (r ≡ (b, none))
        × (f.write_file (sql_file nano m.desc (codes ".down.sql")) m.down b ≡ (v, none))
  unfolding up_written
  up_written-none m nano (w, some e) v h = cc
  up_written-none m nano (w, none) v h = (w, refl, h)

  -- The two files of a change have been written, the one for going up first, and both under the same
  -- time and description.
  abbrev pub Written : SqlMigration → W → W → Type 0
  Written m w v =
      (a : W) × (b : W) × (f.mkdir_all (codes "sqls") w ≡ (a, none))
      × (f.write_file (sql_file (f.now a) m.desc (codes ".up.sql")) m.up a ≡ (b, none))
      × (f.write_file (sql_file (f.now a) m.desc (codes ".down.sql")) m.down b ≡ (v, none))

  dir_made-none :
      (m : SqlMigration) (r : W × Option Err) (v : W)
      → dir_made f m r ≡ (v, none)
      → (a : W) × (b : W) × (r ≡ (a, none))
        × (f.write_file (sql_file (f.now a) m.desc (codes ".up.sql")) m.up a ≡ (b, none))
        × (f.write_file (sql_file (f.now a) m.desc (codes ".down.sql")) m.down b ≡ (v, none))
  unfolding dir_made
  dir_made-none m (w, some e) v h = cc
  dir_made-none m (w, none) v h =
      let (b, up, down) = up_written-none m (f.now w) _ v h in (w, b, refl, up, down)

  save-Written : (m : SqlMigration) (w v : W) → save f m w ≡ (v, none) → Written m w v
  unfolding save
  save-Written m w v h = dir_made-none m (f.mkdir_all (codes "sqls") w) v h

  module _ (repo : Bytes) where
    saved-none : (r : W × Option Err) (v : W) → saved f repo r ≡ (v, none) → r ≡ (v, none)
    unfolding saved
    saved-none (w, none) v h = h
    saved-none (w, some e) v h = cc

    required-none :
        (text value : Bytes) (next : W → W × Option Err) (w v : W)
        → required f repo text value next w ≡ (v, none)
        → (bytes_eq value [] ≡ false) × (next w ≡ (v, none))
    unfolding required
    required-none text value next w v h = elim (Bool-cases (bytes_eq value [])) [
      | inl empty ↦ absurd (cc (rw empty at h))
      | inr given ↦ (given, rw given at h)
    ]

    save_made-none :
        (r : Result Err SqlMigration) (w v : W)
        → save_made f repo r w ≡ (v, none)
        → (m : SqlMigration) × (r ≡ ok m) × Written m w v
    unfolding save_made
    save_made-none (err e) w v h = cc
    save_made-none (ok m) w v h = (m, refl, save-Written m w v (saved-none (save f m w) v h))

    -- If making a column reports no error, then the column and the table have a name, and the two files
    -- of the change that adds a column of the type to the table have been written.
    generate_column-Written :
        (name db_name table t : Bytes) (w v : W)
        → generate_column f repo name db_name table t w ≡ (v, none)
        → (bytes_eq name [] ≡ false)
          × (bytes_eq table [] ≡ false)
          × ((m : SqlMigration) × (create_column
                  (or_default db_name repo)
                  table
                  name
                  (sql_col (or_default t (codes "string")))
                ≡ ok m)
              × Written m w v)
    unfolding generate_column
    generate_column-Written name db_name table t w v h =
        let change =
          create_column (or_default db_name repo) table name
            (sql_col (or_default t (codes "string"))) in
        let (named, rest) =
          required-none (codes "name") name
            (required f repo (codes "table") table (save_made f repo change)) w v h in
        let (tabled, last) =
          required-none (codes "table") table (save_made f repo change) w v rest in
        (named, tabled, save_made-none change w v last)

    -- An index that is both unique and for full text is refused, before a file is written.
    pub generate_index-refused :
        (name table : Bytes) (columns : List Bytes) (db_name : Bytes) (w : W)
        → (e : Err) × (generate_index f repo name table columns db_name true true w ≡ (w, some e))
    unfolding generate_index required
    generate_index-refused name table columns db_name w = elim (Bool-cases (bytes_eq name [])) [
      | inl no_name ↦ (errorf (codes "name" ++ codes " is required"), rw no_name)
      | inr named ↦ elim (Bool-cases (bytes_eq table [])) [
        | inl no_table ↦ (errorf (codes "table" ++ codes " is required"), rw (named, no_table))
        | inr tabled ↦
            (errorf (codes "cannot create both unique and full-text index"), rw (named, tabled))
      ]
    ]
