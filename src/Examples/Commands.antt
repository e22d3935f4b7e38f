-- ===== src/Examples/Commands.antt =====
-- Instances of the laws of the command that removes a tenant, and of the server.
use zygote.Common.{true, false, none, some, [], ◌∷◌, codes, ℕ, suc, pos, ok, ◌≡◌, refl}
use zygote.Errors.{Err, errorf, wrap}
use zygote.Container.{Docker, Container}
use zygote.Commands.Calls.{query_url, escape_quotes}
use zygote.Commands.Sql.{port_num}
use zygote.Http.Server.{Server, Network}
use zygote.Examples.Containers.{docker}

-- A container of the tenant, and one of another.
abbrev two : Docker ℕ
two = record docker {
  container_list = λ w. (
    w,
    ok (
        record { name = codes "/zygote-mem-a"; id = codes "17" }
        ∷ record { name = codes "/other"; id = codes "18" }
        ∷ []),
  );
}

abbrev server : Server
server = record {
  cs = record { config_home = codes "/z" };
  use_acme = false;
  use_domain_cert = false;
  host = codes "db";
  port = pos 8443;
}

-- A server that counts its calls, and is closed.
abbrev network : Network ℕ
network = record {
  append_pem = λ pem. true;
  load_pair = λ cert key w. (w, none);
  serve_challenges = λ w. w;
  listen_and_serve = λ port c cert key w. (suc w, some (errorf (codes "closed")));
}

abbrev closed : Err
closed = wrap (codes "failed to start server: ") (errorf (codes "closed"))

port_test :
    port_num (record { shard = pos 2; input = []; read_only = false; user = []; host = codes "db" })
    ≡ codes "6646"
unfolding port_num zygote.Strconv.itoa
port_test = refl

url_test :
    (query_url (codes "db") (codes "/sql/query") ≡ codes "https://db:443/sql/query")
    × (escape_quotes (codes "a\"b") ≡ codes "a\\\"b")
unfolding query_url escape_quotes
url_test = (refl, refl)
