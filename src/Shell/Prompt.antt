-- ===== src/Shell/Prompt.antt =====
-- lib/cluster/utils/prompt.go: `GetYesNoInput` asks until a line answers. The lines of the standard
-- input are an argument; after the last one every line that is read is empty.
use zygote.Common.{
  ℕ, zero, suc, ◌≤◌, Bool, true, false, ◌||◌, Option, none, some, List, [], ◌∷◌, length,
  if◌then◌else◌, Bytes, codes, ◌≡◌, refl, arith,
}
use zygote.Strings.{bytes_eq, to_lower, trim_space}

-- What a line answers, if anything.
unfoldable pub answer_of : Bytes → Option Bool
unfolding bytes_eq to_lower trim_space
answer_of line =
    let input = to_lower (trim_space line) in
    if bytes_eq input (codes "yes") || bytes_eq input (codes "y")
    then some true
    else if bytes_eq input (codes "no") || bytes_eq input (codes "n")
    then some false
    else none

-- The line of `scanner.Text()` and the lines that are left.
abbrev pub next_line : List Bytes → Bytes × List Bytes
next_line [] = ([], [])
next_line (line ∷ lines) = (line, lines)

-- The loop, in some rounds; `none` is that none of them returned.
unfoldable pub yes_no : ℕ → List Bytes → Option Bool
unfolding answer_of
yes_no zero lines = none
yes_no (suc rounds) lines = elim (answer_of (next_line lines).0) [
  | some b ↦ some b
  | none ↦ yes_no rounds (next_line lines).1
]

-- The answer of the first line that has one.
unfoldable pub first_answer : List Bytes → Option Bool
unfolding answer_of
first_answer [] = none
first_answer (line ∷ lines) = elim (answer_of line) [ some b ↦ some b | none ↦ first_answer lines ]

-- At the end of the input the loop goes on for ever.
yes_no_end : (rounds : ℕ) → yes_no rounds [] ≡ none
unfolding yes_no
yes_no_end zero = refl
yes_no_end (suc rounds) = yes_no_end rounds

-- In any number of rounds that reaches the end of the input, the loop has returned the answer of the
-- first line that answers; if no line does, it has not returned, however many rounds it is given.
pub yes_no-first_answer :
    (rounds : ℕ) (lines : List Bytes)
    → length lines ≤ rounds
    → yes_no rounds lines ≡ first_answer lines
unfolding yes_no first_answer
yes_no-first_answer rounds [] h = yes_no_end rounds
yes_no-first_answer zero (line ∷ lines) h = absurd (omega arith)
yes_no-first_answer (suc rounds) (line ∷ lines) h = ground (arith, yes_no-first_answer rounds lines)
