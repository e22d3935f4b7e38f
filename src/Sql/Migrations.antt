-- ===== src/Sql/Migrations.antt =====
-- db.go and db/templates: the SQL files of a schema's changes. A template is the function from its
-- parameters to the text that it makes; the templates are under db/templates.
pub mod Generate
pub mod Laws
use zygote.Common.{
  Bool, true, false, ◌||◌, Option, none, some, List, [], ◌∷◌, ◌++◌, if◌then◌else◌, ◌==◌, Bytes,
  codes, ℕ, ℤ, Result, ok, err,
}
use zygote.Strings.{bytes_eq}
use zygote.Strconv.{itoa}
use zygote.Errors.{Err, errorf}

pub record SqlMigration : Type 0 where
  pub desc : Bytes
  pub up : Bytes
  pub down : Bytes

unfoldable pub trim_left : Bytes → Bytes
trim_left [] = []
trim_left (c ∷ s) = let rest = trim_left s in if c == b'\n' then rest else c ∷ s

unfoldable pub trim_right : Bytes → Bytes
trim_right [] = []
trim_right (c ∷ s) = elim (trim_right s) [
  | [] ↦ if c == b'\n' then [] else c ∷ []
  | x ∷ xs ↦ c ∷ x ∷ xs
]

-- `strings.Trim(s, "\n")`.
unfoldable pub trim_lines : Bytes → Bytes
unfolding trim_left trim_right
trim_lines s = trim_right (trim_left s)

unfoldable pub quoted : Bytes → Bytes
quoted name = b'`' ∷ (name ++ b'`' ∷ [])

unfoldable pub qualified : Bytes → Bytes → Bytes
unfolding quoted
qualified db_name table = quoted db_name ++ b'.' ∷ quoted table

unfoldable pub create_database : Bytes → SqlMigration
unfolding trim_lines
create_database db_name = record {
  desc = codes "db_" ++ db_name;
  up = trim_lines (
      codes "CREATE DATABASE "
      ++ db_name
      ++ codes " DEFAULT CHARACTER SET utf8mb4 COLLATE utf8mb4_unicode_ci;\n");
  down = trim_lines (codes "DROP DATABASE IF EXISTS " ++ db_name ++ codes ";\n");
}

unfoldable pub create_table : Bytes → Bytes → SqlMigration
unfolding trim_lines qualified
create_table db_name table = record {
  desc = codes "table_" ++ db_name ++ b'_' ∷ table;
  up = trim_lines (
      codes "CREATE TABLE IF NOT EXISTS "
      ++ qualified db_name table
      ++ codes
          " (\n    id BIGINT UNSIGNED NOT NULL AUTO_INCREMENT,\n    data JSON NOT NULL,\n    PRIMARY KEY (id)\n);\n");
  down = trim_lines (codes "DROP TABLE IF EXISTS " ++ qualified db_name table ++ codes ";\n");
}

-- `text` is one of a list of texts.
unfoldable pub is_one_of : Bytes → List Bytes → Bool
unfolding bytes_eq
is_one_of text [] = false
is_one_of text (x ∷ xs) = bytes_eq text x || is_one_of text xs

unfoldable pub resolve_default_value : Bytes → Result Err Bytes
unfolding is_one_of
resolve_default_value t =
    if is_one_of t (codes "INT" ∷ codes "BIGINT" ∷ [])
    then ok (codes "0")
    else if is_one_of t (codes "FLOAT" ∷ codes "DOUBLE" ∷ [])
    then ok (codes "0.0")
    else if bytes_eq t (codes "BOOLEAN")
    then ok (codes "false")
    else if bytes_eq t (codes "MEDIUMBLOB")
    then ok (codes "''")
    else if bytes_eq t (codes "JSON")
    then ok (codes "NULL")
    else if is_one_of t (codes "VARCHAR(255)" ∷ codes "MEDIUMTEXT" ∷ codes "CHAR(36)" ∷ [])
    then ok (codes "''")
    else err (errorf (codes "unsupported column type: " ++ t))

unfoldable pub column_up : Bytes → Bytes → Bytes → Bytes → Bytes → Bytes
unfolding qualified quoted is_one_of
column_up db_name table name t default =
    let add =
      codes "\nALTER TABLE "
      ++ qualified db_name table
      ++ codes " ADD COLUMN "
      ++ quoted name
      ++ b' ' ∷ t in
    if is_one_of t (codes "MEDIUMBLOB" ∷ codes "MEDIUMTEXT" ∷ codes "JSON" ∷ [])
    then add ++ codes ";\n\n"
    else add ++ codes " NOT NULL DEFAULT " ++ default ++ codes ";\n\n"

-- create_column_down.sql and create_property_down.sql are the same.
unfoldable pub column_down : Bytes → Bytes → Bytes → Bytes
unfolding qualified quoted
column_down db_name table name =
    codes "ALTER TABLE "
    ++ qualified db_name table
    ++ codes " DROP COLUMN "
    ++ quoted name
    ++ codes ";\n"

unfoldable pub column_of :
    Bytes → Bytes → Bytes → Bytes → Result Err Bytes → Result Err SqlMigration
unfolding trim_lines column_up column_down
column_of db_name table name t (err e) = err e
column_of db_name table name t (ok default) = ok (record {
  desc = codes "column_" ++ db_name ++ b'_' ∷ (table ++ b'_' ∷ name);
  up = trim_lines (column_up db_name table name t default);
  down = trim_lines (column_down db_name table name);
})

unfoldable pub create_column : Bytes → Bytes → Bytes → Bytes → Result Err SqlMigration
unfolding column_of
create_column db_name table name t = column_of db_name table name t (resolve_default_value t)

unfoldable pub create_property : Bytes → Bytes → Bytes → Bytes → Bytes → Bool → SqlMigration
unfolding trim_lines qualified quoted column_down
create_property db_name table name field_path data_type virtual = record {
  desc = codes "prop_" ++ db_name ++ b'_' ∷ (table ++ b'_' ∷ name);
  up = trim_lines (
      codes "ALTER TABLE "
      ++ qualified db_name table
      ++ codes "\nADD COLUMN "
      ++ quoted name
      ++ b' '
        ∷ (data_type
            ++ codes " GENERATED ALWAYS AS (data->>'"
            ++ field_path
            ++ codes "')"
            ++ (if virtual then codes " VIRTUAL " else codes " STORED")
            ++ codes ";\n"));
  down = trim_lines (column_down db_name table name);
}

pub record CreateIndexParams : Type 0 where
  pub table_name : Bytes
  pub database_name : Bytes
  pub name : Bytes
  pub columns : List Bytes
  pub unique : Bool
  pub full_text : Bool

-- The names of the columns, quoted and separated.
unfoldable pub column_list : List Bytes → Bytes
unfolding quoted
column_list [] = []
column_list (c ∷ []) = quoted c
column_list (c ∷ (d ∷ cs)) = quoted c ++ codes ", " ++ column_list (d ∷ cs)

-- `GenCreateSQL` for the type `index`, the only one that the program passes to it.
unfoldable pub gen_create_sql : CreateIndexParams → SqlMigration
unfolding trim_lines qualified column_list quoted
gen_create_sql p = record {
  desc = codes "index_" ++ p.database_name ++ b'_' ∷ (p.table_name ++ b'_' ∷ p.name);
  up = trim_lines (
      codes "ALTER TABLE "
      ++ qualified p.database_name p.table_name
      ++ codes "\nADD "
      ++ (if p.unique then codes "UNIQUE " else if p.full_text then codes "FULLTEXT " else [])
      ++ codes "INDEX "
      ++ quoted (codes "idx_" ++ p.name)
      ++ codes " (\n  "
      ++ column_list p.columns
      ++ codes "\n);\n");
  down = trim_lines (
      codes "ALTER TABLE "
      ++ qualified p.database_name p.table_name
      ++ codes "\nDROP INDEX "
      ++ quoted (codes "idx_" ++ p.name)
      ++ codes ";\n");
}

-- The file system and the clock: `os.MkdirAll(sqlsDir)`, `os.WriteFile` and `time.Now`, in nanoseconds.
pub record Files (W : Type 0) : Type 0 where
  pub mkdir_all : Bytes → W → W × Option Err
  pub now : W → ℤ
  pub write_file : Bytes → Bytes → W → W × Option Err

-- The path of a file of a change: `filepath.Join`, for a description without a slash.
unfoldable pub sql_file : ℤ → Bytes → Bytes → Bytes
sql_file nano desc suffix = codes "sqls/" ++ itoa nano ++ b'_' ∷ (desc ++ suffix)

module _ {W : Type 0} (f : Files W) (m : SqlMigration) where
  unfoldable pub up_written : ℤ → W × Option Err → W × Option Err
  up_written nano (w, some e) = (w, some e)
  up_written nano (w, none) = f.write_file (sql_file nano m.desc (codes ".down.sql")) m.down w

  unfoldable pub dir_made : W × Option Err → W × Option Err
  unfolding up_written
  dir_made (w, some e) = (w, some e)
  dir_made (w, none) =
      up_written (f.now w) (f.write_file (sql_file (f.now w) m.desc (codes ".up.sql")) m.up w)

  unfoldable pub save : W → W × Option Err
  unfolding dir_made
  save w = dir_made (f.mkdir_all (codes "sqls") w)
