-- ===== src/Cluster/Index.antt =====
-- lib/cluster/utils/calc_indices.go: the indices of a node from its host name.
pub mod RoundTrip
pub mod Bounds
use zygote.Common.{
  ℕ, ◌-◌, Bool, true, false, ◌&&◌, ◌||◌, Option, none, some, List, [], ◌∷◌, ltb, if◌then◌else◌,
  Bytes, codes, ℤ, pos, Result, ok, err, ◌≡◌, refl, String,
}
use zygote.Strings.{bytes_eq, split, lower}
use zygote.Strconv.{atoi}

pub record ClusterIndex : Type 0 where
  pub rep_index : ℤ
  pub shard_index : ℤ

-- One constructor for each `fmt.Errorf` of the function, in the order of the source.
pub data IndexError : Type 0 where
  invalid_hostname not_a_shard no_letter not_a_letter invalid_number : IndexError

-- The number in the third component, if there is one.
shard_number : List Bytes → Result IndexError ℤ
shard_number [] = ok (pos 0)
shard_number (s ∷ _) = elim (atoi s) [ none ↦ err invalid_number | some num ↦ ok num ]

-- `letter` is the lowered first byte of the second component.
with_letter : ℕ → List Bytes → Result IndexError ClusterIndex
unfolding shard_number
with_letter letter rest =
    if ltb letter b'a' || ltb b'z' letter then err not_a_letter else elim (shard_number rest) [
      | err e ↦ err e
      | ok num ↦ ok (record { rep_index = pos (letter - b'a'); shard_index = num })
    ]

of_components : List Bytes → Result IndexError ClusterIndex
unfolding with_letter lower bytes_eq
of_components [] = err not_a_shard
of_components (head ∷ []) = err not_a_shard
of_components (head ∷ ([] ∷ rest)) =
    if bytes_eq head (codes "shard") then err no_letter else err not_a_shard
of_components (head ∷ ((c ∷ _) ∷ rest)) =
    if bytes_eq head (codes "shard") then with_letter (lower c) rest else err not_a_shard

of_parts : List Bytes → Result IndexError ClusterIndex
unfolding of_components split
of_parts [] = err invalid_hostname
of_parts (shard_part ∷ []) = err invalid_hostname
of_parts (shard_part ∷ (_ ∷ _)) = of_components (split b'-' shard_part)

unfoldable pub get_cluster_index : Bytes → Result IndexError ClusterIndex
unfolding of_parts
get_cluster_index hostname = of_parts (split b'.' hostname)
