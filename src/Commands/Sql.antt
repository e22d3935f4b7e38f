-- ===== src/Commands/Sql.antt =====
-- lib/cluster/commands/sql.go: the shell of SQL.
use zygote.Common.{
  Bool, Option, some, List, [], ◌∷◌, if◌then◌else◌, Bytes, codes, ℤ, pos, wrap64, ◌+ℤ◌, ◌*ℤ◌,
  Result, ok, err,
}
use zygote.Strings.{bytes_eq}
use zygote.Strconv.{itoa}
use zygote.Errors.{Err, wrap}
use zygote.Shell.{Processes, run}
use zygote.Commands.{router_read_write_port, router_read_only_port}

-- The values of the flags.
pub record SqlFlags : Type 0 where
  pub shard : ℤ
  pub input : Bytes
  pub read_only : Bool
  pub user : Bytes
  pub host : Bytes

unfoldable pub port_num : SqlFlags → Bytes
unfolding ◌+ℤ◌ ◌*ℤ◌
port_num f =
    let first = if f.read_only then router_read_only_port else router_read_write_port in
    itoa (wrap64 (first +ℤ wrap64 (pos 100 *ℤ f.shard)))

unfoldable pub mysql_command : SqlFlags → Bytes → List Bytes
unfolding port_num bytes_eq
mysql_command f user =
    codes "mysql"
    ∷ codes "-u"
    ∷ user
    ∷ codes "-h"
    ∷ f.host
    ∷ codes "-P"
    ∷ port_num f
    ∷ codes "-s"
    ∷ codes "--auto-rehash"
    ∷ (if bytes_eq f.input [] then [] else codes "-e" ∷ f.input ∷ [])

-- The terminal and the environment.
pub record Terminal (W : Type 0) : Type 0 where
  pub read_password : W → W × Result Err Bytes
  pub set_env : Bytes → Bytes → W → W

module _ {W : Type 0} (x : Processes W) (m : Terminal W) (f : SqlFlags) where
  -- The part from the setting of the environment on.
  unfoldable pub as_user : Bytes → Bytes → W → W × Option Err
  as_user user password w = run x (mysql_command f user) (m.set_env (codes "MYSQL_PWD") password w)

  unfoldable pub with_password : W × Result Err Bytes → W × Option Err
  with_password (w, err e) = (w, some (wrap (codes "failed to read password: ") e))
  with_password (w, ok password) = as_user f.user password w

  unfoldable pub sql_action : W → W × Option Err
  unfolding bytes_eq
  sql_action w =
      if bytes_eq f.user []
      then as_user (codes "root") (codes "root1234") w
      else with_password (m.read_password w)
