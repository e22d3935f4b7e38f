-- ===== src/Container/Templates.antt =====
-- container/sqlinit.go and container/templates: the files that containers are given. A template is the
-- function from its parameters to the text that it makes. html/template escapes a text that it inserts.
pub mod Escapes
use zygote.Common.{List, [], ◌∷◌, ◌++◌, if◌then◌else◌, ◌==◌, ℕ, Bytes, codes, ℤ}
use zygote.Strconv.{itoa}
use zygote.Sql.Migrations.{trim_lines}

-- What html/template inserts for a byte, outside of tags.
unfoldable pub escaped : ℕ → Bytes
escaped c =
    if c == 0
    then 239 ∷ 191 ∷ 189 ∷ []
    else if c == b'"'
    then codes "&#34;"
    else if c == b'&'
    then codes "&amp;"
    else if c == b'\''
    then codes "&#39;"
    else if c == b'+'
    then codes "&#43;"
    else if c == b'<'
    then codes "&lt;"
    else if c == b'>'
    then codes "&gt;"
    else c ∷ []

unfoldable pub escape : Bytes → Bytes
unfolding escaped
escape [] = []
escape (c ∷ s) = escaped c ++ escape s

pub record SqlInitParams : Type 0 where
  pub db_name : Bytes
  pub username : Bytes
  pub password : Bytes

unfoldable pub sql_init : SqlInitParams → Bytes
unfolding escape trim_lines
sql_init p =
    let name = escape p.username in
    let password = escape p.password in
    trim_lines (
      codes "CREATE DATABASE IF NOT EXISTS "
      ++ escape p.db_name
      ++ codes ";\nCREATE USER IF NOT EXISTS '"
      ++ name
      ++ codes "'@'localhost' IDENTIFIED WITH mysql_native_password BY '"
      ++ password
      ++ codes "';\nCREATE USER IF NOT EXISTS '"
      ++ name
      ++ codes "'@'%' IDENTIFIED WITH mysql_native_password BY '"
      ++ password
      ++ codes "';\nFLUSH PRIVILEGES;\nGRANT ALL PRIVILEGES ON *.* TO '"
      ++ name
      ++ codes "'@'localhost' WITH GRANT OPTION;\nGRANT ALL PRIVILEGES ON *.* TO '"
      ++ name
      ++ codes "'@'%' WITH GRANT OPTION;\nFLUSH PRIVILEGES;\n")

-- router.conf, from the parameter `Destinations`.
unfoldable pub router_conf : Bytes → Bytes
unfolding escape trim_lines
router_conf destinations =
    let to = escape destinations in
    trim_lines (
      codes
        "[DEFAULT]\nuser=root\nlogging_folder=/var/log/mysqlrouter\nruntime_folder=/var/run/mysqlrouter\ndata_folder=/var/lib/mysqlrouter\nconnect_timeout=5\n\n[logger]\nlevel = INFO\n\n[routing:primary]\nbind_address = 0.0.0.0\nbind_port = 6446\nmode = read-write\ndestinations = "
      ++ to
      ++ codes
          "\nrouting_strategy = first-available\n\n[routing:secondary]\nbind_address = 0.0.0.0\nbind_port = 6447\nmode = read-only\ndestinations = "
      ++ to
      ++ codes "\nrouting_strategy = round-robin\n")

-- innodb_cluster_template.cnf, from the three parameters that it uses.
unfoldable pub cluster_conf : ℤ → Bytes → ℤ → Bytes
unfolding escape trim_lines
cluster_conf server_id report_address report_port = trim_lines (
    codes "[mysqld]\nserver_id="
    ++ itoa server_id
    ++ codes "\nbind-address = 0.0.0.0\nreport_host = \""
    ++ escape report_address
    ++ codes "\"\nreport_port = "
    ++ itoa report_port
    ++ codes
        "\ngtid_mode=ON\nenforce_gtid_consistency=ON\nlog_replica_updates=ON\nlog-bin=mysql-bin\nbinlog_format=ROW\nxa_detach_on_prepare=ON\nbinlog_checksum=NONE\nrelay-log = mysqld-relay-bin\nrelay-log-index = mysqld-relay-bin.index\nmysql_native_password=ON\nsql_require_primary_key=ON\ndisabled_storage_engines=\"MyISAM,BLACKHOLE,FEDERATED,ARCHIVE,MEMORY\"\nmax_connections = 300\nmysqlx_max_connections = 200\nrequire_secure_transport=ON\nssl_ca=/etc/certs/my-ca-cert.pem\nssl_cert=/etc/certs/my-server-cert.pem\nssl_key=/etc/certs/my-server-key.pem\n")

-- gr-bootstrap.cnf.
unfoldable pub boot_conf : Bytes → Bytes → Bytes → Bytes → Bytes
unfolding escape trim_lines
boot_conf group_name local_address group_seeds allowed = trim_lines (
    codes "[mysqld]\ngroup_replication_group_name = \""
    ++ escape group_name
    ++ codes "\"\ngroup_replication_local_address = \""
    ++ escape local_address
    ++ codes "\"\ngroup_replication_group_seeds = \""
    ++ escape group_seeds
    ++ codes "\"\ngroup_replication_ip_allowlist = \""
    ++ escape allowed
    ++ codes
        "\"\ngroup_replication_ssl_mode = REQUIRED\ngroup_replication_recovery_use_ssl = 1\ngroup_replication_recovery_ssl_ca = \"/etc/certs/my-ca-cert.pem\"\ngroup_replication_recovery_ssl_cert = \"/etc/certs/my-server-cert.pem\"\ngroup_replication_recovery_ssl_key = \"/etc/certs/my-server-key.pem\"\n")
