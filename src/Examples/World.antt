-- ===== src/Examples/World.antt =====
-- Concrete instances of what the program calls, shared by the examples.
use zygote.Common.{ℕ, suc, none, ok}
use zygote.Tables.{Driver}

-- A database that opens a new handle at each call, and never fails.
abbrev pub calm : Driver ℕ
calm = record {
  register_tls_config = λ name w. (w, none);
  open_db = λ dsn w. (suc w, ok w);
  set_max_open_conns = λ h n w. w;
  set_max_idle_conns = λ h n w. w;
  set_conn_max_lifetime = λ h n w. w;
  ping = λ h w. (w, none);
  close_db = λ h w. (w, none);
  wait = λ delay w. (w, none);
}
