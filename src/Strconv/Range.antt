-- ===== src/Strconv/Range.antt =====
-- What `Atoi` can return.
use zygote.Common.{
  ℕ, ◌≤◌, Option, none, some, [], ◌∷◌, Bytes, Lacks, ℤ, pos, max_int, ◌≡◌, arith, Bool-cases, inl,
  inr, ◌==◌,
}
use zygote.Strconv.{atoi, unsigned, non_negative}

non_negative_range :
    (o : Option ℕ) (z : ℤ) → non_negative o ≡ some z → (n : ℕ) × (z ≡ pos n) × (n ≤ max_int)
unfolding non_negative
non_negative_range none z e = ground arith
non_negative_range (some n) z e = (n, ground arith, ground arith)

-- A text without a minus sign is never read as a negative number.
pub atoi_non_negative :
    (t : Bytes) (z : ℤ) → Lacks b'-' t → atoi t ≡ some z → (n : ℕ) × (z ≡ pos n) × (n ≤ max_int)
unfolding atoi
atoi_non_negative [] z h e = ground arith
atoi_non_negative (c ∷ s) z h e = elim (Bool-cases (c == b'+')) [
  | inl plus ↦ non_negative_range (unsigned s) z (ground arith)
  | inr digit ↦ non_negative_range (unsigned (c ∷ s)) z (ground arith)
]
