-- ===== src/Geography/Tree.antt =====
-- The recursive queries of api/src/services/validators.ts and nodes.ts over `parent_id`. A level of
-- `WITH RECURSIVE` is computed from the level before; a path holds no node twice, so there are at
-- most as many levels as nodes: that many rounds are the fuel.
use citynode_app.Prelude.{
  ℕ, zero, suc, String, Bool, false, Option, none, some, List, [], ◌∷◌, ◌++◌, map, if◌then◌else◌,
  ◌==◌, ◌&&◌, not, any, find, length,
}
use citynode_app.Geography.Types.{Node}

-- `x = any(xs)`, `xs.includes(x)`
abbrev pub member : String → List String → Bool
member x xs = any (λ y. y == x) xs

-- `parent_id = id`
abbrev pub child_of : String → Node → Bool
child_of i n = elim n.parent_id [ none ↦ false | some p ↦ p == i ]

unfoldable pub node_by_id : String → List Node → Option Node
node_by_id i nodes = find (λ (n : Node). n.id == i) nodes

-- A row of the recursive query, with its path.
pub record Visit : Type 0 where
  pub id : String
  pub path : List String

-- `inner join … on n.parent_id = d.id where not (n.id = any(d.path))`
unfoldable pub visit_children : List Node → Visit → List Visit
visit_children [] v = []
visit_children (n ∷ nodes) v =
    let rest = visit_children nodes v in
    if child_of v.id n && not (member n.id v.path)
    then record { id = n.id; path = n.id ∷ v.path } ∷ rest
    else rest

unfoldable pub next_level : List Node → List Visit → List Visit
unfolding visit_children
next_level nodes [] = []
next_level nodes (v ∷ level) = visit_children nodes v ++ next_level nodes level

-- the levels, nearest first: `order by depth`
unfoldable pub levels : ℕ → List Node → List Visit → List Visit
unfolding next_level
levels zero nodes level = []
levels (suc fuel) nodes level = level ++ levels fuel nodes (next_level nodes level)

abbrev pub root_visit : Node → Visit
root_visit n = record { id = n.id; path = n.id ∷ [] }

abbrev pub first_level : Option Node → List Visit
first_level none = []
first_level (some n) = root_visit n ∷ []

abbrev pub visit_ids : List Visit → List String
visit_ids visits = map (λ (v : Visit). v.id) visits

unfoldable pub descendant_ids : List Node → String → List String
unfolding levels node_by_id
descendant_ids nodes i = visit_ids (levels (length nodes) nodes (first_level (node_by_id i nodes)))

-- from a node to its parent, until a node comes again or has no stored parent
unfoldable pub climb : ℕ → List Node → List String → Option Node → List String
climb zero nodes path o = []
climb (suc fuel) nodes path none = []
climb (suc fuel) nodes path (some n) =
    if member n.id path
    then []
    else n.id
      ∷ climb fuel nodes (n.id ∷ path)
          (elim n.parent_id [ none ↦ none | some p ↦ node_by_id p nodes ])

unfoldable pub ancestor_ids : List Node → String → List String
unfolding climb node_by_id
ancestor_ids nodes i = climb (length nodes) nodes [] (node_by_id i nodes)
