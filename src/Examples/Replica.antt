-- ===== src/Examples/Replica.antt =====
-- Instances of the laws of files in volumes and of a replica, where every call succeeds.
use zygote.Common.{
  false, none, some, [], ◌∷◌, ◌++◌, Bytes, codes, ℕ, pos, length, ok, returned, ◌≡◌, refl,
}
use zygote.Strings.{bytes_eq}
use zygote.Cluster.{Env}
use zygote.Cert.{System, present}
use zygote.Container.Spawn.{SpawnRequest}
use zygote.Container.Input.{Inputs, vol}
use zygote.Container.Input.Written.{Fed, vol-Fed}
use zygote.Container.Templates.{escape, sql_init}
use zygote.Sql.{SqlNode, new_sql_node}
use zygote.Sql.Replica.{make_sql_replica}
use zygote.Sql.Replica.Mounts.{ReplicaMade, make_sql_replica-Made}
use zygote.Examples.Containers.{docker, spawner}

abbrev inputs : Inputs ℕ
inputs = record {
  attach_input = λ stdin id w. (w, none);
  write_input = λ id text w. (w, ok (length text));
  close_attached = λ id w. w;
  wait_stopped = λ id w. (w, none);
  copy_output = λ id w. (w, none);
}

-- Every file is there.
abbrev pub disk : System ℕ
disk = record {
  stat = λ p w. present;
  mkdir_all = λ p w. (w, none);
  read_file = λ p w. ok (codes "pem");
  create = λ p w. (w, none);
  encode = λ p kind bytes w. (w, none);
  close = λ p w. w;
  generate_key = λ w. (w, ok 1);
  random_serial = λ w. (w, ok 9);
  create_certificate = λ t issuer subject signer w. (w, ok (codes "der"));
  marshal_key = λ k. ok (codes "key");
  pem_decode = λ pem. some pem;
  parse_key = λ b. ok 4;
  parse_certificate = λ b. ok 5;
  parse_ip = λ text. none;
  now = λ w. pos 100;
  next_year = λ w. pos 465;
  run = λ argv w. (w, none);
}

abbrev pub env : Env
env name = []

abbrev node : SqlNode
node = new_sql_node (codes "org_repo") (codes "mynet")

not_empty : bytes_eq (codes "x = 1") [] ≡ false
unfolding bytes_eq
not_empty = refl

puts :
    vol docker spawner inputs
      (codes "zygote")
      (codes "x = 1")
      (codes "conf")
      (codes "/etc/x")
      (codes "x.cnf")
      (codes "mynet")
      0
    ≡ returned 1
unfolding vol
puts = refl

vol-Fed_example :
    (a : ℕ) × (b : ℕ) × (id : Bytes) × (request : SpawnRequest) × (spawner.spawn_create request a
      ≡ (b, ok id))
    × (request.binds ≡ (codes "conf" ++ b':' ∷ codes "/etc/x") ∷ [])
    × (request.cmd
        ≡ codes "bash" ∷ codes "-c" ∷ (codes "tee " ++ codes "/etc/x" ++ b'/' ∷ codes "x.cnf") ∷ [])
    × Fed docker spawner inputs id (codes "x = 1" ++ b'\n' ∷ [])
vol-Fed_example =
    vol-Fed docker spawner inputs (codes "zygote") (codes "x = 1") (codes "conf") (codes "/etc/x")
      (codes "x.cnf") (codes "mynet") 0 1 not_empty puts

makes :
    make_sql_replica docker spawner inputs disk env
      (ok (codes "/home/zygote"))
      (codes "org_repo")
      node
      0
    ≡ returned (6, none)
unfolding make_sql_replica zygote.Sql.Replica.sql_certs_volume
    zygote.Container.Certs.make_certs_volume zygote.Container.Certs.certs_with
    zygote.Cert.cert_service zygote.Container.Certs.put_certs zygote.Cert.Service.ca
    zygote.Cert.Service.read_or_exit zygote.Cert.ca_path zygote.Cert.in_dir zygote.Cert.ca_dir
    zygote.Cert.ensure_dir zygote.Cert.dir_found zygote.Container.Certs.put_file vol
    zygote.Cert.Service.container_cert zygote.Cert.Service.cert zygote.Cert.cert_path
    zygote.Cert.cert_dir zygote.Cert.Service.ensure_cert zygote.Cert.Service.cert_found
    zygote.Cert.Service.container_key zygote.Cert.Service.key zygote.Cert.key_path
    zygote.Sql.Replica.make_sql_conf_b_volume zygote.Sql.Replica.write_file
    zygote.Sql.Replica.init_file sql_init new_sql_node zygote.Sql.Replica.conf_made
    zygote.Sql.Replica.make_group_replication_config_volume zygote.Sql.Containers.cluster_params
    zygote.Sql.Replica.group_file zygote.Container.Templates.cluster_conf zygote.Strconv.itoa
    zygote.Cluster.node_container zygote.Strings.letter_of zygote.Sql.Replica.group_made
    zygote.Sql.Replica.make_db zygote.Sql.Containers.db_config zygote.Cluster.node_port
    zygote.Container.Start.start_container zygote.Container.Start.wait_healthy
makes = refl

make_sql_replica-Made_example :
    ReplicaMade docker spawner inputs disk env
      (ok (codes "/home/zygote"))
      (codes "org_repo")
      node
      0
      6
make_sql_replica-Made_example =
    make_sql_replica-Made docker spawner inputs disk env (ok (codes "/home/zygote"))
      (codes "org_repo") node 0 6 makes

escape_test : escape (codes "a&b") ≡ codes "a&amp;b"
unfolding escape
escape_test = refl
