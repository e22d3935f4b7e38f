-- ===== src/Strings/Split.antt =====
-- Laws of splitting, cutting and comparing texts.
use zygote.Common.{
  ℕ, true, List, [], ◌∷◌, ◌++◌, ◌==◌, Bytes, Lacks, All, ◌≡◌, ◌≢◌, ap, length, length-append, some,
  refl, arith, Bool-cases, inl, inr, pos, ◌<◌, ◌+◌,
}
use zygote.Strings.{bytes_eq, cut_suffix, split, prepend, letter_of}

pub bytes_eq_refl : (s : Bytes) → bytes_eq s s ≡ true
unfolding bytes_eq
bytes_eq_refl [] = refl
bytes_eq_refl (x ∷ s) = ground (arith, bytes_eq_refl s)

pub eq_of_bytes_eq : (s t : Bytes) → bytes_eq s t ≡ true → s ≡ t
unfolding bytes_eq
eq_of_bytes_eq [] [] h = refl
eq_of_bytes_eq [] (y ∷ t) h = ground arith
eq_of_bytes_eq (x ∷ s) [] h = ground arith
eq_of_bytes_eq (x ∷ s) (y ∷ t) h = ground (arith, eq_of_bytes_eq s t)

-- A text without the separator is its own only part.
pub split-Lacks : (c : ℕ) (p : Bytes) → Lacks c p → split c p ≡ p ∷ []
unfolding split
split-Lacks c [] h = refl
split-Lacks c (x ∷ p) h = ground (arith, split-Lacks c p h.1)

-- The first part ends at the first separator.
pub split-append : (c : ℕ) (p rest : Bytes) → Lacks c p → split c (p ++ c ∷ rest) ≡ p ∷ split c rest
unfolding split
split-append c [] rest h = ground arith
split-append c (x ∷ p) rest h = ground (arith, split-append c p rest h.1)

prepend-Lacks :
    (c x : ℕ) (ps : List Bytes) → x ≢ c → All (Lacks c) ps → All (Lacks c) (prepend x ps)
unfolding prepend
prepend-Lacks c x [] off h = ((off, tt), tt)
prepend-Lacks c x (p ∷ ps) off h = ((off, h.0), h.1)

-- No part holds the separator.
pub split-All-Lacks : (c : ℕ) (s : Bytes) → All (Lacks c) (split c s)
unfolding split
split-All-Lacks c [] = (tt, tt)
split-All-Lacks c (x ∷ s) =
    let rest = split-All-Lacks c s in
    elim (Bool-cases (x == c)) [
      | inl hit ↦ rw hit (tt, rest)
      | inr miss ↦ rw miss (prepend-Lacks c x (split c s) (ground arith) rest)
    ]

pub split-cons : (c : ℕ) (s : Bytes) → (p : Bytes) × (ps : List Bytes) × (split c s ≡ p ∷ ps)
unfolding split
split-cons c [] = ([], [], refl)
split-cons c (x ∷ s) =
    let (p, ps, e) = split-cons c s in
    elim (Bool-cases (x == c)) [
      | inl hit ↦ ([], split c s, rw hit)
      | inr miss ↦ (x ∷ p, ps, rw (miss, e, prepend))
    ]

-- The first twenty-six nodes of a shard are named by the letters from `a` on.
pub letter_of_lem : (r : ℕ) → r < 26 → letter_of (pos r) ≡ (97 + r) ∷ []
unfolding letter_of
letter_of_lem r h = ground arith

length-ne : (x : ℕ) (s t : Bytes) → x ∷ (s ++ t) ≢ t
length-ne x s t e = omega (arith, ap length e, length-append s t)

-- A suffix that is there is cut off.
pub cut_suffix-append : (s t : Bytes) → cut_suffix (s ++ t) t ≡ some s
unfolding cut_suffix
cut_suffix-append [] [] = refl
cut_suffix-append [] (y ∷ t) = rw (bytes_eq_refl (y ∷ t))
cut_suffix-append (x ∷ s) t = elim (Bool-cases (bytes_eq (x ∷ (s ++ t)) t)) [
  | inl whole ↦ absurd (length-ne x s t (eq_of_bytes_eq _ _ whole))
  | inr part ↦ rw (part, cut_suffix-append s t)
]
