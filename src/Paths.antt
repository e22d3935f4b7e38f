-- ===== src/Paths.antt =====
-- What the program uses of Go's package `path/filepath`, on systems whose separator is the slash.
use mathlib.Core.List.{reverse}
use zygote.Common.{Bool, ◌||◌, List, [], ◌∷◌, if◌then◌else◌, Bytes, codes, ◌==◌}
use zygote.Strings.{bytes_eq, starts_with, split, join}

abbrev slash : Bytes
slash = b'/' ∷ []

-- Two dots go back to the parent, of which the root has none.
to_parent : Bool → List Bytes → List Bytes
unfolding bytes_eq
to_parent rooted [] = if rooted then [] else codes ".." ∷ []
to_parent rooted (q ∷ qs) = if bytes_eq q (codes "..") then codes ".." ∷ q ∷ qs else qs

with_part : Bool → List Bytes → Bytes → List Bytes
unfolding to_parent bytes_eq
with_part rooted parts p =
    if bytes_eq p [] || bytes_eq p (codes ".")
    then parts
    else if bytes_eq p (codes "..")
    then to_parent rooted parts
    else p ∷ parts

-- The parts that stay, the last one first.
clean_parts : Bool → List Bytes → List Bytes → List Bytes
unfolding with_part
clean_parts rooted parts [] = parts
clean_parts rooted parts (p ∷ ps) = clean_parts rooted (with_part rooted parts p) ps

-- `filepath.Clean`.
unfoldable pub clean : Bytes → Bytes
unfolding clean_parts starts_with split join bytes_eq
clean path =
    let rooted = starts_with path slash in
    let text = join (reverse (clean_parts rooted [] (split b'/' path))) slash in
    if rooted then b'/' ∷ text else if bytes_eq text [] then codes "." else text

-- From the first text that is not empty on.
leading : List Bytes → List Bytes
leading [] = []
leading ([] ∷ ps) = leading ps
leading ((c ∷ p) ∷ ps) = (c ∷ p) ∷ ps

clean_join : List Bytes → Bytes
unfolding clean join
clean_join [] = []
clean_join (p ∷ ps) = clean (join (p ∷ ps) slash)

-- `filepath.Join`.
unfoldable pub join_path : List Bytes → Bytes
unfolding leading clean_join
join_path parts = clean_join (leading parts)

-- The path up to its last slash, that slash included: `path[:i+1]`, empty where there is none.
up_to_slash : Bytes → Bytes
up_to_slash [] = []
up_to_slash (c ∷ path) = elim (up_to_slash path) [
  | [] ↦ if c == b'/' then slash else []
  | x ∷ xs ↦ c ∷ x ∷ xs
]

-- `filepath.Dir`.
unfoldable pub dir : Bytes → Bytes
unfolding up_to_slash clean
dir path = clean (up_to_slash path)

without_slashes : Bytes → Bytes
without_slashes [] = []
without_slashes (c ∷ path) = elim (without_slashes path) [
  | [] ↦ if c == b'/' then [] else c ∷ []
  | x ∷ xs ↦ c ∷ x ∷ xs
]

last_part : List Bytes → Bytes
last_part [] = []
last_part (p ∷ []) = p
last_part (p ∷ q ∷ ps) = last_part (q ∷ ps)

-- `filepath.Base`.
unfoldable pub base : Bytes → Bytes
unfolding without_slashes last_part split bytes_eq
base path =
    let name = last_part (split b'/' (without_slashes path)) in
    if bytes_eq path [] then codes "." else if bytes_eq name [] then slash else name
