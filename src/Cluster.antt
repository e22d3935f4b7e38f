-- ===== src/Cluster.antt =====
-- lib/cluster/utils/cluster.go and calc_indices.go: the names, hosts and ports of the nodes.
-- `os.Getenv` is an argument; it gives the empty text for a variable that is not set.
pub mod Index
pub mod Ports
pub mod Suffix
use zygote.Common.{
  ℕ, ◌+◌, Bool, true, false, ◌&&◌, ◌||◌, Option, none, some, List, [], ◌∷◌, ◌++◌, leb, ◌==◌,
  if◌then◌else◌, Bytes, codes, ℤ, pos, negsuc, ltb_ℤ, leb_ℤ, eqb_ℤ, wrap64, ◌+ℤ◌, ◌*ℤ◌, Outcome,
  returned, exited, ◌>>=◌, ◌≡◌, refl,
}
use zygote.Strings.{bytes_eq, split, letter_of, cut_suffix}
use zygote.Strconv.{itoa, is_digit}

abbrev pub Env : Type 0
Env = Bytes → Bytes

abbrev pub default_network_name : Bytes
default_network_name = codes "mynet"

abbrev pub host_network_name : Bytes
host_network_name = codes "host"

abbrev pub max_shard_size : ℤ
max_shard_size = pos 9

abbrev pub my_zygote_domain : Bytes
my_zygote_domain = codes "my.zygote.run"

unfoldable pub node_port : Bytes → ℤ → ℤ → ℤ → Outcome ℤ
unfolding bytes_eq ◌+ℤ◌ ◌*ℤ◌
node_port network target_port replica_index shard_index =
    if bytes_eq network host_network_name
    then returned target_port
    else if ltb_ℤ replica_index (pos 0) || ltb_ℤ shard_index (pos 0)
    then exited (codes "replicaIndex and shardIndex must be non-negative")
    else if leb_ℤ max_shard_size replica_index
    then exited (codes "replicaIndex must be less than 10")
    else returned (wrap64 (target_port +ℤ replica_index *ℤ pos 10 +ℤ pos 100 *ℤ shard_index))

unfoldable pub node_host : Bytes → Bytes → ℤ → ℤ → Bytes
unfolding bytes_eq letter_of
node_host network domain replica_index shard_index =
    let shard_name = letter_of replica_index in
    if bytes_eq network host_network_name
    then (if ltb_ℤ (pos 0) shard_index
        then codes "shard-" ++ shard_name ++ b'-' ∷ (itoa shard_index ++ b'.' ∷ domain)
        else codes "shard-" ++ shard_name ++ b'.' ∷ domain)
    else codes "127.0.0.1"

unfoldable pub node_container : Bytes → Bytes → ℤ → ℤ → Bytes
node_container node_type tenant replica_index shard_index =
    let base = tenant ++ b'-' ∷ (node_type ++ b'-' ∷ letter_of replica_index) in
    if eqb_ℤ shard_index (pos 0) then base else base ++ b'-' ∷ itoa shard_index

-- The value of a variable, or a default where it is empty.
unfoldable pub or_default : Bytes → Bytes → Bytes
unfolding bytes_eq
or_default value default = if bytes_eq value [] then default else value

unfoldable pub domain_name : Env → Bytes
unfolding or_default
domain_name env = or_default (env (codes "Z_DOMAIN")) my_zygote_domain

unfoldable pub host_name : Env → Bytes
unfolding or_default
host_name env = or_default (env (codes "Z_HOST")) my_zygote_domain

unfoldable pub tenant_name : Env → Bytes
unfolding or_default
tenant_name env = or_default (env (codes "Z_TENANT")) (codes "zygote")

unfoldable pub network_name : Env → Bytes
unfolding or_default
network_name env = or_default (env (codes "DOCKER_NETWORK_NAME")) default_network_name

unfoldable pub is_host_network : Env → Bool
unfolding network_name
is_host_network env = bytes_eq (network_name env) host_network_name

first : List Bytes → Option Bytes
first [] = none
first (p ∷ ps) = some p

-- The part before the first dash of the part before the first dot.
type_of_host : Bytes → Outcome Bytes
unfolding first split bytes_eq
type_of_host host = elim (first (split b'.' host)) [
  | none ↦ exited (codes "Parse node type from hostname")
  | some label ↦ elim (first (split b'-' label)) [
    | none ↦ exited (codes "Parse node type from hostname")
    | some part ↦
        if bytes_eq part [] then exited (codes "Parse node type from hostname") else returned part
  ]
]

unfoldable pub node_type : Env → Outcome Bytes
unfolding type_of_host host_name
node_type env =
    if bytes_eq (host_name env) my_zygote_domain then returned [] else type_of_host (host_name env)

all_digits : Bytes → Bool
unfolding is_digit
all_digits [] = true
all_digits (c ∷ s) = is_digit c && all_digits s

-- What may follow the letter: nothing, or a dash and at least one digit.
is_number_part : Bytes → Bool
unfolding all_digits
is_number_part [] = true
is_number_part (c ∷ []) = false
is_number_part (c ∷ (d ∷ s)) = c == b'-' && all_digits (d ∷ s)

is_letter : ℕ → Bool
is_letter c = leb b'a' c && leb c b'z'

-- Whether the whole text matches `-[a-z](-\d+)?`.
is_suffix : Bytes → Bool
unfolding is_number_part is_letter
is_suffix [] = false
is_suffix (c ∷ []) = false
is_suffix (c ∷ (l ∷ s)) = c == b'-' && is_letter l && is_number_part s

-- The leftmost match of `-[a-z](-\d+)?$`, without its first byte; empty if there is none.
find_suffix : Bytes → Bytes
unfolding is_suffix
find_suffix [] = []
find_suffix (c ∷ s) = if is_suffix (c ∷ s) then s else find_suffix s

unfoldable pub node_suffix_of : Bytes → Bytes → Bytes
unfolding cut_suffix find_suffix
node_suffix_of host domain = elim (cut_suffix host (b'.' ∷ domain)) [
  | none ↦ []
  | some b ↦ find_suffix b
]

unfoldable pub node_suffix : Env → Outcome Bytes
node_suffix env =
    let s = node_suffix_of (host_name env) (domain_name env) in
    if bytes_eq s [] then exited (codes "Parse node suffix from hostname") else returned s

unfoldable pub container_cert_name : Env → Bytes → Bytes
unfolding bytes_eq domain_name
container_cert_name env name =
    if bytes_eq (domain_name env) my_zygote_domain then name else name ++ b'.' ∷ domain_name env

unfoldable pub container_name : Env → Bytes → Outcome Bytes
container_name env name =
    let qualified : Outcome Bytes = do
      suffix ← node_suffix env
      returned (tenant_name env ++ b'-' ∷ (name ++ b'-' ∷ suffix))
    in if bytes_eq (domain_name env) my_zygote_domain then returned name else qualified
