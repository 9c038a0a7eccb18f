-- ===== src/Rule/Template.antt =====
-- internal/rule/template.go: the fields that a parsed template reads. The parse tree is the one of
-- text/template/parse, with one constructor for each node kind that the walk looks into.
use clickhouse_ruler.Base.{Bool, false, ◌||◌, String, List, [], ◌∷◌, if◌then◌else◌, ◌==◌, string_eq}
use clickhouse_ruler.Text.{sort_strings}

mutual
  pub data Node : Type 0 where
    nil_node : Node
    field : List String → Node
    list : Nodes → Node
    action : Node → Node
    pipe : Nodes → Node
    command : Nodes → Node
    if_node range_node with_node : Node → Node → Node → Node
    other : Node

  pub data Nodes : Type 0 where
    end : Nodes
    child : Node → Nodes → Nodes

unfoldable pub contains : String → List String → Bool
contains s [] = false
contains s (t ∷ ts) = s == t || contains s ts

-- seen[s] = true
unfoldable pub mark : String → List String → List String
unfolding contains
mark s seen = if contains s seen then seen else s ∷ seen

unfoldable pub mark_first : List String → List String → List String
unfolding mark
mark_first [] seen = seen
mark_first (x ∷ xs) seen = mark x seen

unfoldable mutual
  unfolding mark_first

  pub walk : Node → List String → List String
  walk nil_node seen = seen
  walk (field ident) seen = mark_first ident seen
  walk (list nodes) seen = walk_all nodes seen
  walk (action p) seen = walk p seen
  walk (pipe cmds) seen = walk_all cmds seen
  walk (command args) seen = walk_all args seen
  walk (if_node p l e) seen = walk e (walk l (walk p seen))
  walk (range_node p l e) seen = walk e (walk l (walk p seen))
  walk (with_node p l e) seen = walk e (walk l (walk p seen))
  walk other seen = seen

  pub walk_all : Nodes → List String → List String
  walk_all end seen = seen
  walk_all (child n ns) seen = walk_all ns (walk n seen)

unfoldable pub template_fields : Node → List String
unfolding walk sort_strings
template_fields root = sort_strings (walk root [])
