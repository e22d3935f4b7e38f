-- ===== src/Sql/Migrations/Generate.antt =====
-- lib/cluster/commands/generate.go: the actions of the commands that make the files of a change.
use zygote.Common.{
  Bool, ◌&&◌, Option, none, some, List, [], ◌++◌, if◌then◌else◌, Bytes, codes, Result, ok, err,
}
use zygote.Strings.{bytes_eq}
use zygote.Errors.{Err, errorf, wrap}
use zygote.Cluster.{or_default}
use zygote.Sql.Migrations.{
  SqlMigration, Files, save, create_database, create_table, create_column, create_property,
  gen_create_sql,
}

unfoldable pub sql_col : Bytes → Bytes
unfolding bytes_eq
sql_col t =
    if bytes_eq t (codes "string")
    then codes "VARCHAR(255)"
    else if bytes_eq t (codes "integer")
    then codes "INT"
    else if bytes_eq t (codes "double")
    then codes "DOUBLE"
    else if bytes_eq t (codes "bool")
    then codes "BOOLEAN"
    else if bytes_eq t (codes "binary")
    then codes "MEDIUMBLOB"
    else if bytes_eq t (codes "json")
    then codes "JSON"
    else if bytes_eq t (codes "uuid")
    then codes "CHAR(36)"
    else if bytes_eq t (codes "text")
    then codes "MEDIUMTEXT"
    else codes "VARCHAR(255)"

-- The actions: `repo` is `utils.RepoFullName()`; the other texts and Booleans are the flags.
module _ {W : Type 0} (f : Files W) (repo : Bytes) where
  unfoldable pub saved : W × Option Err → W × Option Err
  saved (w, none) = (w, none)
  saved (w, some e) = (w, some (wrap (codes "failed to save model: ") e))

  unfoldable pub save_made : Result Err SqlMigration → W → W × Option Err
  unfolding saved
  save_made (err e) w = (w, some (wrap (codes "failed to create column: ") e))
  save_made (ok m) w = saved (save f m w)

  -- A flag that must not be empty.
  unfoldable pub required : Bytes → Bytes → (W → W × Option Err) → W → W × Option Err
  unfolding bytes_eq
  required text value next w =
      if bytes_eq value [] then (w, some (errorf (text ++ codes " is required"))) else next w

  unfoldable pub generate_db : Bytes → W → W × Option Err
  unfolding saved or_default
  generate_db name w = saved (save f (create_database (or_default name repo)) w)

  unfoldable pub generate_table : Bytes → Bytes → W → W × Option Err
  unfolding saved required or_default
  generate_table name db_name =
      required (codes "name") name
        (λ w. saved (save f (create_table (or_default db_name repo) name) w))

  unfoldable pub generate_column : Bytes → Bytes → Bytes → Bytes → W → W × Option Err
  unfolding save_made required or_default
  generate_column name db_name table t = required (codes "name") name (
      required (codes "table") table (
        save_made (
          create_column (or_default db_name repo) table name
            (sql_col (or_default t (codes "string"))))))

  unfoldable pub generate_property :
      Bytes → Bytes → Bytes → Bytes → Bytes → Bool → W → W × Option Err
  unfolding saved required or_default
  generate_property name path table db_name t virtual = required (codes "name") name (
      required (codes "JSON field path") path (
        required (codes "table") table (λ w. saved (
          save f (create_property (or_default db_name repo) table name path (sql_col t) virtual)
            w))))

  unfoldable pub generate_index :
      Bytes → Bytes → List Bytes → Bytes → Bool → Bool → W → W × Option Err
  unfolding saved required or_default
  generate_index name table columns db_name unique full_text = required (codes "name") name (
      required (codes "table") table (λ w.
        if unique && full_text
        then (w, some (errorf (codes "cannot create both unique and full-text index")))
        else saved (
            save f
              (gen_create_sql (record {
                table_name = table;
                database_name = or_default db_name repo;
                name = name;
                columns = columns;
                unique = unique;
                full_text = full_text;
              }))
              w)))
