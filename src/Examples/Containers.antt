-- ===== src/Examples/Containers.antt =====
-- An instance of the law of starting a container, with a Docker that has one healthy container.
use zygote.Common.{List, Bytes, ℕ, suc, none, [], ◌∷◌, codes, pos, returned, ok, ◌≡◌, refl}
use zygote.Container.{
  Container, Docker, ContainerConfig, docker_path, tagged, full_name, auth_config_key,
}
use zygote.Container.Pull.{pull}
use zygote.Container.Spawn.{Spawner, spawn_and_wait, remove_volumes}

-- The state counts the containers that have been created.
abbrev pub docker : Docker ℕ
docker = record {
  create_client = λ w. (w, none);
  image_list = λ w. (w, ok []);
  credentials = λ w. (w, none);
  image_pull = λ image auth w. (w, none);
  read_all = λ w. (w, none);
  container_create = λ request w. (suc w, ok (codes "17"));
  container_start = λ id w. (w, none);
  container_list = λ w. (w, ok (record { name = codes "/zygote-mem-a"; id = codes "17" } ∷ []));
  health = λ id w. (w, ok (codes "healthy"));
  sleep = λ d w. w;
}

abbrev config : ContainerConfig
config = record {
  name = codes "zygote-mem-a";
  network_name = codes "mynet";
  image = codes "redis:7.4.2";
  health_command = [];
  bindings = [];
  caps = [];
  env_vars = [];
  cmd = [];
  ports = (pos 6373, pos 6373) ∷ [];
}

names_test :
    (tagged (codes "redis") ≡ codes "redis:latest")
    × (full_name (codes "redis:7") ≡ codes "docker.io/library/redis:7")
    × (auth_config_key (codes "ghcr.io/evgnomon/ark:main") ≡ codes "ghcr.io")
unfolding tagged full_name auth_config_key
names_test = (refl, refl, refl)

-- Every call succeeds; the state counts the containers and the volumes that are removed.
abbrev pub spawner : Spawner ℕ
spawner = record {
  volume_inspect = λ name w. (w, none);
  volume_create = λ name w. (w, none);
  volume_list = λ w. (w, ok []);
  volume_remove = λ name w. (suc w, none);
  network_inspect = λ name w. (w, none);
  network_create = λ name w. (w, none);
  spawn_create = λ request w. (suc w, ok (codes "18"));
  container_attach = λ id w. (w, none);
  container_wait = λ id w. (w, ok (pos 0));
  container_stop = λ id w. (w, none);
  container_remove = λ id w. (w, none);
  now = λ w. pos 1700;
}

ends :
    spawn_and_wait docker spawner (codes "redis:7.4.2") (codes "zygote") [] [] [] (codes "mynet") 0
    ≡ returned (1, none)
unfolding spawn_and_wait pull
ends = refl

abbrev volumes : List Bytes
volumes = codes "zygote-data" ∷ codes "other" ∷ codes "zygote-conf" ∷ []

removes : remove_volumes docker spawner (codes "zygote") volumes 0 ≡ returned 2
unfolding remove_volumes zygote.Strings.starts_with
removes = refl

abbrev mem_a : Container
mem_a = record { name = codes "/zygote-mem-a"; id = codes "17" }
