-- ===== src/Container.antt =====
-- lib/cluster/container/container.go: the settings and the names that Docker is given. The Docker client
-- is a parameter, with the clock and the file of credentials.
pub mod Health
pub mod Pull
pub mod Start
pub mod Laws
pub mod Live
pub mod Spawn
pub mod Input
pub mod Templates
pub mod Certs
use zygote.Common.{
  ℕ, zero, suc, ◌*◌, ◌/◌, Bool, true, false, ◌||◌, Option, none, some, List, [], ◌∷◌, ◌++◌, map,
  if◌then◌else◌, ◌==◌, Bytes, codes, ℤ, pos, Outcome, returned, exited, ◌>>=◌, Result, ok, err,
}
use zygote.Common.IntMap.{IntMap, insert}
use zygote.Strings.{bytes_eq, contains, starts_with, index_prefix}
use zygote.Strconv.{itoa}
use zygote.Errors.{Err, errorf, wrap}
use zygote.Backoff.{second}
use zygote.Cluster.{Env, host_network_name}

pub record ContainerConfig : Type 0 where
  pub name : Bytes
  pub network_name : Bytes
  pub image : Bytes
  pub health_command : List Bytes
  pub bindings : List Bytes
  pub caps : List Bytes
  pub env_vars : List Bytes
  pub cmd : List Bytes
  pub ports : IntMap ℤ

pub record Container : Type 0 where
  pub name : Bytes
  pub id : Bytes

-- What `ContainerCreate` is given: the fields of its two configurations that the program sets to what
-- depends on its own. `exposed_ports` are the keys of a set; `port_bindings` goes from the port in the
-- container to the one on the host; `none` where they are not set.
pub record CreateRequest : Type 0 where
  pub image : Bytes
  pub env : List Bytes
  pub exposed_ports : List Bytes
  pub health_test : List Bytes
  pub cmd : List Bytes
  pub binds : List Bytes
  pub cap_add : List Bytes
  pub port_bindings : Option (IntMap ℤ)
  pub network_mode : Bytes
  pub name : Bytes

pub data CreateError : Type 0 where
  conflict : CreateError
  other_error : Err → CreateError

-- `credentials` is the file of credentials, as a map from hosts to what is sent for them, `none` where
-- it is not valid. `health` is the status that an inspection shows.
pub record Docker (W : Type 0) : Type 0 where
  pub create_client : W → W × Option Err
  pub image_list : W → W × Result Err (List (List Bytes))
  pub credentials : W → W × Option (Bytes → Option Bytes)
  pub image_pull : Bytes → Bytes → W → W × Option Err
  pub read_all : W → W × Option Err
  pub container_create : CreateRequest → W → W × Result CreateError Bytes
  pub container_start : Bytes → W → W × Option Err
  pub container_list : W → W × Result Err (List Container)
  pub health : Bytes → W → W × Result Err Bytes
  pub sleep : ℤ → W → W

unfoldable pub app_network_name : Env → Bytes
unfolding bytes_eq
app_network_name env =
    let value = env (codes "DOCKER_NETWORK_NAME") in
    if bytes_eq value [] then codes "mynet" else value

-- The socket of Docker on an operating system, with the home directory.
unfoldable pub docker_path : Bytes → Bytes → Outcome Bytes
unfolding bytes_eq
docker_path os home =
    if bytes_eq os (codes "windows")
    then returned (codes "npipe:////./pipe/docker_engine")
    else if bytes_eq os (codes "linux")
    then returned (codes "unix:///var/run/docker.sock")
    else if bytes_eq os (codes "darwin")
    then returned (codes "unix://" ++ home ++ codes "/.docker/run/docker.sock")
    else exited (codes "Unsupported OS")

-- The part before the first slash.
unfoldable pub auth_config_key : Bytes → Bytes
unfolding index_prefix
auth_config_key image = elim (index_prefix b'/' image) [
  | none ↦ codes "https://index.docker.io/v1/"
  | some host ↦ host
]

unfoldable pub auth_of : Option (Bytes → Option Bytes) → Bytes → Bytes
unfolding auth_config_key
auth_of none image = []
auth_of (some auths) image = elim (auths (auth_config_key image)) [ none ↦ [] | some a ↦ a ]

unfoldable pub tagged : Bytes → Bytes
unfolding contains
tagged image = if contains image (codes ":") then image else image ++ codes ":latest"

unfoldable pub full_name : Bytes → Bytes
unfolding contains
full_name image = if contains image (codes "/") then image else codes "docker.io/library/" ++ image

unfoldable pub any_tag : Bytes → List Bytes → Bool
unfolding bytes_eq
any_tag image [] = false
any_tag image (tag ∷ tags) = bytes_eq tag image || any_tag image tags

-- The two loops over the images and their tags.
unfoldable pub is_listed : Bytes → List (List Bytes) → Bool
unfolding any_tag
is_listed image [] = false
is_listed image (tags ∷ images) = any_tag image tags || is_listed image images

unfoldable pub exposed_ports_of : IntMap ℤ → List Bytes
exposed_ports_of [] = []
exposed_ports_of ((exposed, target) ∷ rest) = itoa target ∷ exposed_ports_of rest

-- The loop that fills the map of the bindings; a later entry for a port replaces an earlier one.
unfoldable pub bind_ports : IntMap ℤ → IntMap ℤ → IntMap ℤ
unfolding insert
bind_ports [] bound = bound
bind_ports ((exposed, target) ∷ rest) bound = bind_ports rest (insert target exposed bound)

unfoldable pub create_request : ContainerConfig → CreateRequest
unfolding bytes_eq exposed_ports_of bind_ports
create_request c = record {
  image = c.image;
  env = c.env_vars;
  exposed_ports = exposed_ports_of c.ports;
  health_test = c.health_command;
  cmd = c.cmd;
  binds = c.bindings;
  cap_add = c.caps;
  port_bindings =
      if bytes_eq c.network_name host_network_name then none else some (bind_ports c.ports []);
  network_mode = c.network_name;
  name = c.name;
}

-- The containers whose name starts with a prefix; Docker puts a slash before the name.
unfoldable pub with_prefix : Bytes → List Container → List Container
unfolding starts_with
with_prefix prefix [] = []
with_prefix prefix (c ∷ cs) =
    let rest = with_prefix prefix cs in
    if starts_with c.name (b'/' ∷ prefix) then c ∷ rest else rest

module _ {W : Type 0} (k : Docker W) where
  -- `logger.FatalIfErr`.
  unfoldable pub fatal_if_err : Bytes → W × Option Err → Outcome W
  fatal_if_err text (w, none) = returned w
  fatal_if_err text (w, some e) = exited text

  unfoldable pub fatal_if_failed : {A : Type 0} → Bytes → W × Result Err A → Outcome (W × A)
  fatal_if_failed text (w, ok a) = returned (w, a)
  fatal_if_failed text (w, err e) = exited text
