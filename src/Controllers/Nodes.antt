-- ===== src/Controllers/Nodes.antt =====
-- lib/cluster/controller/mem.go: the nodes of the Redis cluster, read from the text that lists them.
pub mod Laws
pub mod Handler
use zygote.Common.{
  ℕ, Bool, true, false, ◌||◌, ◌&&◌, not, Option, none, some, List, [], ◌∷◌, if◌then◌else◌, ◌==◌,
  leb, ltb, length, Bytes, codes, ℤ, pos, Result, ok, err,
}
use zygote.Strings.{is_space, contains, split}
use zygote.Strconv.{atoi}
use zygote.Errors.{Err}

-- A byte put before the first word.
unfoldable pub put : ℕ → List Bytes → List Bytes
put c [] = (c ∷ []) ∷ []
put c (w ∷ ws) = (c ∷ w) ∷ ws

-- The words of a text, the first of which may be empty: it is the one that goes on at the start.
unfoldable pub words : Bytes → List Bytes
unfolding put
words [] = [] ∷ []
words (c ∷ s) = let rest = words s in if is_space c then [] ∷ rest else put c rest

unfoldable pub non_empty : List Bytes → List Bytes
non_empty [] = []
non_empty ([] ∷ ws) = non_empty ws
non_empty ((c ∷ w) ∷ ws) = (c ∷ w) ∷ non_empty ws

-- `strings.Fields` on ASCII: the parts between runs of white space. It gives the same for the text that
-- `strings.TrimSpace` leaves, and nothing for an empty one.
unfoldable pub fields : Bytes → List Bytes
unfolding words non_empty
fields s = non_empty (words s)

-- `parseInt`: 0 for a text that is not a number of 64 bits.
unfoldable pub parse_int : Bytes → ℤ
parse_int s = elim (atoi s) [ none ↦ pos 0 | some n ↦ n ]

pub record NodeInfo : Type 0 where
  pub id : Bytes
  pub address : Bytes
  pub flags : List Bytes
  pub role : Bytes
  pub master_id : Bytes
  pub ping_sent : ℤ
  pub pong_recv : ℤ
  pub config_epoch : ℤ
  pub link_state : Bytes
  pub slots : List Bytes

-- A line of at least eight fields.
unfoldable pub node_of : List Bytes → Option NodeInfo
unfolding contains split parse_int
node_of (id ∷ address ∷ flags ∷ master ∷ ping ∷ pong ∷ epoch ∷ link ∷ slots) = some (record {
  id = id;
  address = address;
  flags = split b',' flags;
  role = if contains flags (codes "slave") then codes "slave" else codes "master";
  master_id = master;
  ping_sent = parse_int ping;
  pong_recv = parse_int pong;
  config_epoch = parse_int epoch;
  link_state = link;
  slots = slots;
})
node_of _ = none

unfoldable pub add_node : Option NodeInfo → List NodeInfo → List NodeInfo
add_node none nodes = nodes
add_node (some n) nodes = n ∷ nodes

-- The loop over the lines.
unfoldable pub nodes_of : List Bytes → List NodeInfo
unfolding add_node node_of fields
nodes_of [] = []
nodes_of (line ∷ lines) = add_node (node_of (fields line)) (nodes_of lines)

-- What the handler makes of the text: the nodes, and with them their number.
unfoldable pub cluster_nodes : Bytes → List NodeInfo
unfolding nodes_of split
cluster_nodes text = nodes_of (split b'\n' text)
