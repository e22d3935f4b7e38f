-- ===== src/Cluster/Suffix.antt =====
-- The suffix of a host name, and the names of containers that are made with it.
use zygote.Common.{
  ℕ, zero, suc, ◌+◌, ◌≤◌, ◌<◌, [], ◌∷◌, ◌++◌, append_assoc, Bytes, codes, All, pos, returned, true,
  false, ◌≡◌, refl, arith,
}
use zygote.Strings.{bytes_eq}
use zygote.Strings.Split.{letter_of_lem, cut_suffix-append}
use zygote.Strconv.{itoa}
use zygote.Strconv.RoundTrip.{IsDigit, format_nat-IsDigit, format_nat-cons}
use zygote.Cluster.{
  Env, find_suffix, is_suffix, is_number_part, all_digits, node_suffix_of, node_suffix,
  node_container, node_host, container_name, host_name, domain_name, tenant_name, my_zygote_domain,
  host_network_name,
}

-- The suffix of node `r` of shard `s`: its letter, and the shard's number unless it is 0.
unfoldable pub suffix : ℕ → ℕ → Bytes
suffix r zero = (97 + r) ∷ []
suffix r (suc s) = (97 + r) ∷ b'-' ∷ itoa (pos (suc s))

all_digits_lem : (s : Bytes) → All IsDigit s → all_digits s ≡ true
unfolding all_digits
all_digits_lem [] h = refl
all_digits_lem (c ∷ s) h = ground (arith, all_digits_lem s h.1)

is_number_part-itoa : (n : ℕ) → is_number_part (b'-' ∷ itoa (pos n)) ≡ true
unfolding is_number_part itoa
is_number_part-itoa n =
    let (c, s, e) = format_nat-cons n in
    let d : All IsDigit (c ∷ s) = rw e at (format_nat-IsDigit n) in
    rw (e, is_number_part) (all_digits_lem (c ∷ s) d)

is_suffix-suffix : (r s : ℕ) → r < 26 → is_suffix (b'-' ∷ suffix r s) ≡ true
unfolding is_suffix suffix
is_suffix-suffix r zero h = ground arith
is_suffix-suffix r (suc s) h = rw (is_number_part-itoa (suc s)) (ground arith)

all_digits-dash : (q t : Bytes) → all_digits (q ++ b'-' ∷ t) ≡ false
unfolding all_digits
all_digits-dash [] t = ground arith
all_digits-dash (c ∷ q) t = ground (arith, all_digits-dash q t)

-- A number part ends the text: it holds no letter and no second dash.
is_number_part-dash : (q t : Bytes) (l : ℕ) → 97 ≤ l → is_number_part (q ++ b'-' ∷ l ∷ t) ≡ false
unfolding is_number_part
is_number_part-dash [] t l h = unfold all_digits in ground arith
is_number_part-dash (c ∷ []) t l h = rw (all_digits-dash [] (l ∷ t)) (ground arith)
is_number_part-dash (c ∷ (d ∷ q)) t l h = rw (all_digits-dash (d ∷ q) (l ∷ t)) (ground arith)

not-is_suffix : (x : ℕ) (p t : Bytes) (l : ℕ) → 97 ≤ l → is_suffix (x ∷ (p ++ b'-' ∷ l ∷ t)) ≡ false
unfolding is_suffix
not-is_suffix x [] t l h = ground arith
not-is_suffix x (y ∷ p) t l h = rw (is_number_part-dash p t l h) (ground arith)

suffix-cons : (r s : ℕ) → (t : Bytes) × (suffix r s ≡ (97 + r) ∷ t)
unfolding suffix
suffix-cons r zero = ([], refl)
suffix-cons r (suc s) = (b'-' ∷ itoa (pos (suc s)), refl)

-- Whatever stands before it, also with dashes and letters of its own, the suffix is found.
find_suffix-append :
    (p : Bytes) (r s : ℕ) → r < 26 → find_suffix (p ++ b'-' ∷ suffix r s) ≡ suffix r s
unfolding find_suffix
find_suffix-append [] r s h = rw (is_suffix-suffix r s h)
find_suffix-append (x ∷ p) r s h =
    let (t, e) = suffix-cons r s in
    let no_match : is_suffix (x ∷ (p ++ b'-' ∷ suffix r s)) ≡ false =
      rw e (not-is_suffix x p t (97 + r) (omega arith)) in
    rw no_match (find_suffix-append p r s h)

-- The suffix of a node is read back from a host name that ends in it, before the domain.
pub node_suffix_of-append :
    (p domain : Bytes) (r s : ℕ)
    → r < 26
    → node_suffix_of ((p ++ b'-' ∷ suffix r s) ++ b'.' ∷ domain) domain ≡ suffix r s
unfolding node_suffix_of
node_suffix_of-append p domain r s h =
    rw (node_suffix_of, cut_suffix-append (p ++ b'-' ∷ suffix r s) (b'.' ∷ domain))
      (find_suffix-append p r s h)

node_host-suffix :
    (domain : Bytes) (r s : ℕ)
    → r < 26
    → node_host host_network_name domain (pos r) (pos s)
      ≡ (codes "shard" ++ b'-' ∷ suffix r s) ++ b'.' ∷ domain
unfolding node_host suffix
node_host-suffix domain r zero h = rw (letter_of_lem r h)
node_host-suffix domain r (suc s) h = rw (letter_of_lem r h) (ground arith)

node_container-suffix :
    (name tenant : Bytes) (r s : ℕ)
    → r < 26
    → node_container name tenant (pos r) (pos s) ≡ tenant ++ b'-' ∷ (name ++ b'-' ∷ suffix r s)
unfolding node_container suffix
node_container-suffix name tenant r zero h = rw (letter_of_lem r h)
node_container-suffix name tenant r (suc s) h =
    let base = b'-' ∷ (97 + r) ∷ [] in
    let number = b'-' ∷ itoa (pos (suc s)) in
    rw (letter_of_lem r h) (
      ground
        (arith, append_assoc tenant (b'-' ∷ (name ++ base)) number, append_assoc name base number))

node_suffix_lem :
    (env : Env) (r s : ℕ)
    → host_name env ≡ node_host host_network_name (domain_name env) (pos r) (pos s)
    → r < 26
    → node_suffix env ≡ returned (suffix r s)
unfolding node_suffix
node_suffix_lem env r s host h =
    let (t, e) = suffix-cons r s in
    let found : node_suffix_of (host_name env) (domain_name env) ≡ suffix r s =
      rw (host, node_host-suffix (domain_name env) r s h)
        (node_suffix_of-append (codes "shard") (domain_name env) r s h) in
    rw (found, e) (unfold bytes_eq in refl)

-- On node `r` of shard `s` (its `Z_HOST` is the host name of that node under its `Z_DOMAIN`, which is
-- not the default one) the name that `ContainerName` works out from the environment is the name
-- that `NodeContainer` gives the container of that node.
pub container_name-node_container :
    (env : Env) (name : Bytes) (r s : ℕ)
    → bytes_eq (domain_name env) my_zygote_domain ≡ false
    → host_name env ≡ node_host host_network_name (domain_name env) (pos r) (pos s)
    → r < 26
    → container_name env name ≡ returned (node_container name (tenant_name env) (pos r) (pos s))
unfolding container_name
container_name-node_container env name r s custom host h =
    rw (custom, node_suffix_lem env r s host h, node_container-suffix name (tenant_name env) r s h)
