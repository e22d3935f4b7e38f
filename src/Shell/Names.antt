-- ===== src/Shell/Names.antt =====
-- shell.go: the name of a repository, random texts, and paths.
use mathlib.Core.Path.{subst}
use zygote.Common.{
  ℕ, zero, suc, ◌%◌, ◌<◌, Bool, true, false, ◌&&◌, ◌||◌, Option, none, some, [], ◌∷◌, ◌++◌, map,
  length, length-map, if◌then◌else◌, leb, ◌==◌, Bytes, codes, Outcome, returned, exited, Result, ok,
  err, ◌≡◌, refl, All, arith, ◌>>=◌, ap, sym, ◌∙◌,
}
use zygote.Errors.{Err, errorf, error_text}
use zygote.Cluster.{Env}
use zygote.Paths.{dir, base, join_path}
use zygote.Cert.{Stat, present, absent, stat_failed}

abbrev pub letters : Bytes
letters = codes "abcdefghijklmnopqrstuvwxyzABCDEFGHIJKLMNOPQRSTUVWXYZ0123456789"

abbrev pub rand_len : ℕ
rand_len = 16

-- `letters[i]`, for an index in range.
unfoldable pub at : Bytes → ℕ → ℕ
at [] i = 0
at (c ∷ s) zero = c
at (c ∷ s) (suc i) = at s i

unfoldable pub letter_at : ℕ → ℕ
unfolding at
letter_at bv = at letters (bv % length letters)

-- `randomString`, from the bytes that `rand.Read` fills.
unfoldable pub random_string : Result Err Bytes → Result Err Bytes
unfolding letter_at
random_string (err e) = err e
random_string (ok b) = ok (map letter_at b)

abbrev pub is_letter : ℕ → Bool
is_letter c = (leb b'a' c && leb c b'z') || (leb b'A' c && leb c b'Z')

abbrev pub is_digit : ℕ → Bool
is_digit c = leb b'0' c && leb c b'9'

-- At most `n` bytes of the second set of the pattern.
unfoldable pub matches_rest : ℕ → Bytes → Bool
matches_rest n [] = true
matches_rest zero (c ∷ s) = false
matches_rest (suc n) (c ∷ s) =
    (is_letter c || is_digit c || c == b'_' || c == b'$') && matches_rest n s

-- `pattern`: a letter or an underscore, and at most 63 letters, digits, underscores and dollar signs.
unfoldable pub matches : Bytes → Bool
unfolding matches_rest
matches [] = false
matches (c ∷ s) = (is_letter c || c == b'_') && matches_rest 63 s

-- `FatalIfErr`, whose message to the log is left out where there is no error.
unfoldable pub fatal_if_err : Bytes → Option Err → Outcome (Unit {0})
fatal_if_err text none = returned tt
fatal_if_err text (some e) = exited text

-- The name of a path: its last two parts.
unfoldable pub formatted : Bytes → Bytes
unfolding dir base
formatted path = base (dir path) ++ b'_' ∷ base path

-- The error of `Getwd`, which is the one that the test of the pattern passes on.
unfoldable pub error_of : Result Err Bytes → Option Err
error_of (ok path) = none
error_of (err e) = some e

unfoldable pub value_of : Result Err Bytes → Bytes
value_of (ok path) = path
value_of (err e) = []

-- `RepoFullName`, from the current directory.
unfoldable pub repo_full_name : Result Err Bytes → Outcome Bytes
unfolding formatted matches fatal_if_err error_of value_of
repo_full_name cwd =
    let name = formatted (value_of cwd) in
    do
      _ ← fatal_if_err (codes "Error getting current directory") (error_of cwd)
      _ ←
          (if matches name
            then returned tt
            else fatal_if_err (codes "Error creating repo name") (error_of cwd))
      returned name

-- `RepoName`.
unfoldable pub repo_name : Result Err Bytes → Outcome Bytes
unfolding fatal_if_err error_of value_of base
repo_name cwd = do
  _ ← fatal_if_err (codes "Error getting current directory") (error_of cwd)
  returned (base (value_of cwd))

-- `RepoVaultPath`.
unfoldable pub repo_vault_path : Env → Result Err Bytes → Outcome Bytes
unfolding repo_full_name join_path
repo_vault_path env cwd = do
  name ← repo_full_name cwd
  returned (
      join_path
        (env (codes "HOME") ∷ codes ".blueprint" ∷ codes "secrets" ∷ (name ++ codes ".yaml") ∷ []))

-- `DirExists`, from what `os.Stat` finds and whether it is a directory.
unfoldable pub dir_exists : Bytes → Bool → Stat → Result Err Bool
dir_exists path is_dir present = ok is_dir
dir_exists path is_dir absent = ok false
dir_exists path is_dir (stat_failed e) =
    err (errorf (codes "error getting path " ++ path ++ codes ": " ++ error_text e))

-- The last two parts of any directory are taken for the name of the repository: a name that the
-- pattern refuses is returned like any other.
pub repo_full_name-any : (path : Bytes) → repo_full_name (ok path) ≡ returned (formatted path)
unfolding repo_full_name
repo_full_name-any path = ground arith

-- A letter or a digit of ASCII.
abbrev pub IsAlphanumeric : ℕ → Type 0
IsAlphanumeric c = (is_letter c || is_digit c) ≡ true

all_below : ℕ → (ℕ → Bool) → Bool
all_below zero p = true
all_below (suc n) p = p n && all_below n p

all_below_sound : (n : ℕ) (p : ℕ → Bool) (i : ℕ) → all_below n p ≡ true → i < n → p i ≡ true
unfolding all_below
all_below_sound zero p i h lt = elim lt [ ]
all_below_sound (suc n) p i h lt = ground (arith, all_below_sound n p i)

every_letter : all_below 62 (λ i. is_letter (at letters i) || is_digit (at letters i)) ≡ true
unfolding all_below at
every_letter = refl

letter_at-IsAlphanumeric : (bv : ℕ) → IsAlphanumeric (letter_at bv)
unfolding letter_at
letter_at-IsAlphanumeric bv =
    all_below_sound 62 (λ i. is_letter (at letters i) || is_digit (at letters i)) (bv % 62)
      every_letter (omega arith)

random-All : (b : Bytes) → All IsAlphanumeric (map letter_at b)
random-All [] = tt
random-All (c ∷ b) = (letter_at-IsAlphanumeric c, random-All b)

-- A random text is as long as the bytes that were read, and has letters and digits of ASCII only: none
-- of the bytes is outside the table.
pub random_string-IsAlphanumeric :
    (read : Result Err Bytes) (s : Bytes)
    → random_string read ≡ ok s
    → (b : Bytes) × (read ≡ ok b) × (length s ≡ length b) × All IsAlphanumeric s
unfolding random_string
random_string-IsAlphanumeric (err e) s h = cc
random_string-IsAlphanumeric (ok b) s h =
    let e : map letter_at b ≡ s = cc in
    (
      b,
      refl,
      ap length (sym e) ∙ length-map letter_at b,
      subst (All IsAlphanumeric) e (random-All b),
    )
