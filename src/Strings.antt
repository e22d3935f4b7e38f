-- ===== src/Strings.antt =====
-- What the program uses of Go's packages `strings` and `unicode/utf8`, over texts as lists of bytes.
pub mod Split
use zygote.Common.{
  ℕ, zero, suc, ◌+◌, ◌-◌, ◌/◌, ◌%◌, ◌^◌, Bool, true, false, ◌&&◌, ◌||◌, not, Option, none, some,
  List, [], ◌∷◌, ◌++◌, ltb, leb, ◌==◌, if◌then◌else◌, Bytes, codes, ℤ, pos, to_word, ◌≡◌, refl,
}

-- `a == b` on strings.
unfoldable pub bytes_eq : Bytes → Bytes → Bool
bytes_eq [] [] = true
bytes_eq [] (y ∷ ys) = false
bytes_eq (x ∷ xs) [] = false
bytes_eq (x ∷ xs) (y ∷ ys) = x == y && bytes_eq xs ys

prepend : ℕ → List Bytes → List Bytes
prepend x [] = (x ∷ []) ∷ []
prepend x (p ∷ ps) = (x ∷ p) ∷ ps

-- `strings.Split(s, sep)` with a separator of one byte. It returns at least one part.
unfoldable pub split : ℕ → Bytes → List Bytes
unfolding prepend
split c [] = [] ∷ []
split c (x ∷ xs) = let rest = split c xs in if x == c then [] ∷ rest else prepend x rest

-- `strings.Join(parts, sep)`.
unfoldable pub join : List Bytes → Bytes → Bytes
join [] sep = []
join (p ∷ []) sep = p
join (p ∷ (q ∷ ps)) sep = p ++ sep ++ join (q ∷ ps) sep

-- What stands before the first byte `c`, if there is one: `s[:strings.IndexByte(s, c)]`.
unfoldable pub index_prefix : ℕ → Bytes → Option Bytes
index_prefix c [] = none
index_prefix c (x ∷ s) =
    let rest = index_prefix c s in
    if x == c then some [] else elim rest [ none ↦ none | some p ↦ some (x ∷ p) ]

unfoldable pub starts_with : Bytes → Bytes → Bool
starts_with s [] = true
starts_with [] (p ∷ ps) = false
starts_with (x ∷ s) (p ∷ ps) = x == p && starts_with s ps

unfoldable pub contains : Bytes → Bytes → Bool
unfolding starts_with
contains [] p = starts_with [] p
contains (x ∷ s) p = starts_with (x ∷ s) p || contains s p

unfoldable pub lower : ℕ → ℕ
lower c = if leb b'A' c && leb c b'Z' then c + 32 else c

-- `strings.ToLower` on the ASCII letters; other bytes stay.
unfoldable pub to_lower : Bytes → Bytes
unfolding lower
to_lower [] = []
to_lower (c ∷ s) = lower c ∷ to_lower s

-- The white space of ASCII.
abbrev pub is_space : ℕ → Bool
is_space c = c == b' ' || (leb 9 c && leb c 13)

unfoldable pub trim_start : Bytes → Bytes
trim_start [] = []
trim_start (c ∷ s) = let rest = trim_start s in if is_space c then rest else c ∷ s

unfoldable pub trim_end : Bytes → Bytes
trim_end [] = []
trim_end (c ∷ s) = elim (trim_end s) [
  | [] ↦ if is_space c then [] else c ∷ []
  | x ∷ xs ↦ c ∷ x ∷ xs
]

-- `strings.TrimSpace` on ASCII.
unfoldable pub trim_space : Bytes → Bytes
unfolding trim_start trim_end
trim_space s = trim_end (trim_start s)

-- `strings.CutSuffix`.
unfoldable pub cut_suffix : Bytes → Bytes → Option Bytes
unfolding bytes_eq
cut_suffix [] suffix = if bytes_eq [] suffix then some [] else none
cut_suffix (x ∷ s) suffix =
    let rest = cut_suffix s suffix in
    if bytes_eq (x ∷ s) suffix then some [] else elim rest [ none ↦ none | some b ↦ some (x ∷ b) ]

-- `string(r)` for the 32 bits of a rune: its UTF-8 encoding, or that of U+FFFD if it is none.
unfoldable pub string_of_rune : ℕ → Bytes
string_of_rune r =
    if ltb r 0x80
    then r ∷ []
    else if ltb r 0x800
    then (0xC0 + r / 64) ∷ (0x80 + r % 64) ∷ []
    else if (leb 0xD800 r && leb r 0xDFFF) || ltb 0x10FFFF r
    then 0xEF ∷ 0xBF ∷ 0xBD ∷ []
    else if ltb r 0x10000
    then (0xE0 + r / 4096) ∷ (0x80 + r / 64 % 64) ∷ (0x80 + r % 64) ∷ []
    else (0xF0 + r / 262144) ∷ (0x80 + r / 4096 % 64) ∷ (0x80 + r / 64 % 64) ∷ (0x80 + r % 64) ∷ []

-- `string('a' + rune(i))`: the conversion keeps 32 bits, and the sum wraps around.
unfoldable pub letter_of : ℤ → Bytes
unfolding string_of_rune
letter_of i = string_of_rune ((b'a' + to_word 32 i) % 2 ^ 32)
