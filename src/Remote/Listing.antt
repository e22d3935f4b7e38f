-- ===== src/Remote/Listing.antt =====
-- remote.go: `ListRemoteDir` reads what `ls -1` prints.
use zygote.Common.{List, [], ◌∷◌, ◌++◌, Bytes, ◌≡◌, Lacks, false}
use zygote.Strings.{is_space}

-- What `ls -1` prints of some names.
unfoldable pub lines : List Bytes → Bytes
lines [] = []
lines (p ∷ ps) = p ++ b'\n' ∷ lines ps

abbrev EndsInText : Bytes → Type 0
EndsInText [] = ⊥
EndsInText (c ∷ []) = is_space c ≡ false
EndsInText (c ∷ (d ∷ p)) = EndsInText (d ∷ p)

abbrev StartsWithText : Bytes → Type 0
StartsWithText [] = ⊥
StartsWithText (c ∷ p) = is_space c ≡ false

-- A name on one line, that white space neither starts nor ends.
abbrev pub IsName : Bytes → Type 0
IsName p = Lacks b'\n' p × StartsWithText p × EndsInText p

abbrev sep : Bytes
sep = b'\n' ∷ []
