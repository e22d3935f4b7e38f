-- ===== src/Cluster/Index/Bounds.antt =====
-- What `GetClusterIndex` can return.
use zygote.Common.{
  ℕ, ◌-◌, ◌≤◌, ◌<◌, List, [], ◌∷◌, Bytes, Lacks, All, ℤ, pos, max_int, ok, Result-cases, ◌≡◌, arith,
  inl, inr,
}
use zygote.Strings.{split, lower}
use zygote.Strings.Split.{split-All-Lacks}
use zygote.Strconv.Range.{atoi_non_negative}
use zygote.Cluster.Index.{
  ClusterIndex, get_cluster_index, of_parts, of_components, with_letter, shard_number,
}

-- Neither index is negative, and the replica is one of twenty-six.
abbrev pub InRange : ClusterIndex → Type 0
InRange i =
    (r : ℕ) × (s : ℕ) × (i ≡ record { rep_index = pos r; shard_index = pos s })
    × (r < 26)
    × (s ≤ max_int)

shard_number_range :
    (rest : List Bytes) (z : ℤ)
    → All (Lacks b'-') rest
    → shard_number rest ≡ ok z
    → (s : ℕ) × (z ≡ pos s) × (s ≤ max_int)
unfolding shard_number
shard_number_range [] z h e = (0, ground arith, omega arith)
shard_number_range (t ∷ rest) z h e = atoi_non_negative t z h.0 (ground arith)

with_letter_range :
    (letter : ℕ) (rest : List Bytes) (i : ClusterIndex)
    → All (Lacks b'-') rest
    → with_letter letter rest ≡ ok i
    → InRange i
unfolding with_letter
with_letter_range letter rest i h e = elim (Result-cases (shard_number rest)) [
  | inl (z, num) ↦
      let (s, z_pos, fits) = shard_number_range rest z h num in
      (letter - b'a', s, ground arith, ground arith, fits)
  | inr (x, bad) ↦ ground arith
]

of_components_range :
    (cs : List Bytes) (i : ClusterIndex) → All (Lacks b'-') cs → of_components cs ≡ ok i → InRange i
unfolding of_components
of_components_range [] i h e = ground arith
of_components_range (head ∷ []) i h e = ground arith
of_components_range (head ∷ ([] ∷ rest)) i h e = ground arith
of_components_range (head ∷ ((c ∷ t) ∷ rest)) i h e =
    with_letter_range (lower c) rest i h.1.1 (ground arith)

of_parts_range : (ps : List Bytes) (i : ClusterIndex) → of_parts ps ≡ ok i → InRange i
unfolding of_parts
of_parts_range [] i e = ground arith
of_parts_range (p ∷ []) i e = ground arith
of_parts_range (p ∷ (q ∷ ps)) i e = of_components_range (split b'-' p) i (split-All-Lacks b'-' p) e

-- Whatever host name is accepted, the replica index is one of a to z and the shard index is an
-- `int` that is not negative.
get_cluster_index-InRange :
    (hostname : Bytes) (i : ClusterIndex) → get_cluster_index hostname ≡ ok i → InRange i
unfolding get_cluster_index
get_cluster_index-InRange hostname i e = of_parts_range (split b'.' hostname) i e
