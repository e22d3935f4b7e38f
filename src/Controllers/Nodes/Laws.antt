-- ===== src/Controllers/Nodes/Laws.antt =====
-- Reading the list of nodes that Redis prints: lines of words.
use zygote.Common.{ℕ, false, List, [], ◌∷◌, map, Bytes, codes, All, ◌≡◌}
use zygote.Strings.{is_space, join}
use zygote.Controllers.Nodes.{NodeInfo, node_of, add_node}

abbrev pub NotSpace : ℕ → Type 0
NotSpace c = is_space c ≡ false

-- A word has a byte, and none of its bytes is white space.
abbrev pub Word : Bytes → Type 0
Word [] = ⊥
Word (c ∷ w) = All NotSpace (c ∷ w)

-- The words of a line, separated by one space.
abbrev pub line : List Bytes → Bytes
line ws = join ws (codes " ")

-- The text of a list of lines.
abbrev pub text : List (List Bytes) → Bytes
text ls = join (map line ls) (codes "\n")

-- The nodes of the lines, from their words.
abbrev pub nodes_from : List (List Bytes) → List NodeInfo
nodes_from [] = []
nodes_from (ws ∷ ls) = add_node (node_of ws) (nodes_from ls)
