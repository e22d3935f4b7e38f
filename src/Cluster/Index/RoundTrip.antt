-- ===== src/Cluster/Index/RoundTrip.antt =====
-- The indices are read back from the host name that the program makes for a node.
use zygote.Common.{
  ℕ, ◌+◌, ◌≤◌, ◌<◌, List, [], ◌∷◌, ◌++◌, Bytes, codes, Lacks, pos, max_int, ok, ◌≡◌, ap, ◌∙◌, arith,
  zero, suc,
}
use zygote.Strings.{split}
use zygote.Strings.Split.{split-cons, split-Lacks, split-append, letter_of_lem}
use zygote.Strconv.{itoa}
use zygote.Strconv.RoundTrip.{format_nat-IsDigit, Lacks-digits, atoi-itoa}
use zygote.Cluster.{node_host, host_network_name}
use zygote.Cluster.Index.{get_cluster_index, of_parts, of_components}

-- The first label of the host name of node `r` of shard `s`.
label : ℕ → ℕ → Bytes
label r zero = codes "shard-" ++ (97 + r) ∷ []
label r (suc s) = codes "shard-" ++ (97 + r) ∷ b'-' ∷ itoa (pos (suc s))

node_host-label :
    (domain : Bytes) (r s : ℕ)
    → r < 26
    → node_host host_network_name domain (pos r) (pos s) ≡ label r s ++ b'.' ∷ domain
unfolding node_host label
node_host-label domain r zero h = rw (letter_of_lem r h)
node_host-label domain r (suc s) h = rw (letter_of_lem r h) (ground arith)

itoa-Lacks : (b s : ℕ) → b < 48 → Lacks b (itoa (pos s))
unfolding itoa
itoa-Lacks b s h = Lacks-digits b _ (format_nat-IsDigit s) (λ c d. omega arith)

label-Lacks : (r s : ℕ) → Lacks b'.' (label r s)
unfolding label
label-Lacks r zero = omega arith
label-Lacks r (suc s) = ground (arith, itoa-Lacks b'.' (suc s) (omega arith))

-- the components of a label
components : ℕ → ℕ → List Bytes
components r zero = codes "shard" ∷ ((97 + r) ∷ []) ∷ []
components r (suc s) = codes "shard" ∷ ((97 + r) ∷ []) ∷ itoa (pos (suc s)) ∷ []

split-label : (r s : ℕ) → split b'-' (label r s) ≡ components r s
unfolding label components
split-label r zero =
    split-append b'-' (codes "shard") ((97 + r) ∷ []) (omega arith)
    ∙ ap (λ ps. codes "shard" ∷ ps) (split-Lacks b'-' ((97 + r) ∷ []) (omega arith))
split-label r (suc s) =
    let number = itoa (pos (suc s)) in
    split-append b'-' (codes "shard") ((97 + r) ∷ b'-' ∷ number) (omega arith)
    ∙ ap (λ ps. codes "shard" ∷ ps)
        (split-append b'-' ((97 + r) ∷ []) number (omega arith)
          ∙ ap (λ ps. ((97 + r) ∷ []) ∷ ps)
              (split-Lacks b'-' number (itoa-Lacks b'-' (suc s) (omega arith))))

of_components_lem :
    (r s : ℕ)
    → r < 26
    → s ≤ max_int
    → of_components (components r s) ≡ ok (record { rep_index = pos r; shard_index = pos s })
unfolding of_components components
of_components_lem r zero h k = ground arith
of_components_lem r (suc s) h k = ground (arith, atoi-itoa (suc s) k)

-- The indices of a node are read back from its host name, on a host network, for the first
-- twenty-six nodes of every shard whose number is an `int`, and any domain.
pub get_cluster_index-node_host :
    (domain : Bytes) (r s : ℕ)
    → r < 26
    → s ≤ max_int
    → get_cluster_index (node_host host_network_name domain (pos r) (pos s))
      ≡ ok (record { rep_index = pos r; shard_index = pos s })
unfolding get_cluster_index
get_cluster_index-node_host domain r s h k =
    let (p, ps, e) = split-cons b'.' domain in
    rw (node_host-label domain r s h, split-append b'.' (label r s) domain (label-Lacks r s), e)
      (rw (of_parts, split-label r s) (of_components_lem r s h k))
