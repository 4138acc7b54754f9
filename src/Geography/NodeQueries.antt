-- ===== src/Geography/NodeQueries.antt =====
-- The reads of api/src/services/nodes.ts. A query that states no order answers in table order.
use citynode_app.Prelude.{
  ℕ, String, Bool, true, Option, none, some, List, [], ◌∷◌, ◌++◌, map, if◌then◌else◌, ◌==◌, ◌&&◌,
  not, filter, length, opt_eq,
}
use citynode_app.Geography.Types.{Node, Validator, GeoDb}
use citynode_app.Geography.Tree.{node_by_id, child_of, descendant_ids}
use citynode_app.Geography.Nodes.{kind_of}
use citynode_app.Geography.Validators.{of_node}

abbrev pub is_root : Node → Bool
is_root n = opt_eq n.parent_id none

-- a parent of `some none` is null
pub record NodeListFilter : Type 0 where
  pub kind : Option String
  pub parent_id : Option (Option String)
  pub tenant_id : Option String

abbrev pub given_eq : Option String → Option String → Bool
given_eq none o = true
given_eq (some a) o = opt_eq o (some a)

abbrev pub parent_matches : Option (Option String) → Node → Bool
parent_matches none n = true
parent_matches (some p) n = opt_eq n.parent_id p

unfoldable pub list_nodes : NodeListFilter → GeoDb → List Node
unfolding kind_of
list_nodes input db =
    filter
      (λ (n : Node).
        given_eq input.kind (kind_of n.metadata)
        && given_eq input.tenant_id n.tenant_id
        && parent_matches input.parent_id n)
      db.nodes

unfoldable pub children_count : String → List Node → ℕ
children_count i nodes = length (filter (child_of i) nodes)

unfoldable pub validator_count : String → List Validator → ℕ
validator_count i vs = length (filter (of_node i) vs)

-- each node with the number of its children and of its validators
unfoldable pub list_summaries : NodeListFilter → GeoDb → List (Node × ℕ × ℕ)
unfolding list_nodes
list_summaries input db =
    map (λ (n : Node). (n, children_count n.id db.nodes, validator_count n.id db.validators))
      (list_nodes input db)

unfoldable pub list_root_nodes : GeoDb → List Node
list_root_nodes db = filter is_root db.nodes

unfoldable pub list_children : String → GeoDb → List Node
list_children p db = filter (child_of p) db.nodes

-- `orderBy(parent_id is not null)`: the roots first
unfoldable pub roots_first : List Node → List Node
roots_first nodes = filter is_root nodes ++ filter (λ n. not (is_root n)) nodes

-- the choice among the first two matches without a parent given
unfoldable pub unambiguous : List Node → Option Node
unambiguous [] = none
unambiguous (n ∷ []) = some n
unambiguous (n ∷ m ∷ nodes) = if is_root n then some n else none

abbrev first_of : List Node → Option Node
first_of [] = none
first_of (n ∷ nodes) = some n

abbrev pub has_slug : String → Node → Bool
has_slug slug n = n.slug == slug

-- a parent that is left out is `none`; `some none` is null
unfoldable pub resolve_by_slug : String → Option (Option String) → GeoDb → Option Node
unfolding unambiguous roots_first
resolve_by_slug slug none db = unambiguous (roots_first (filter (has_slug slug) db.nodes))
resolve_by_slug slug (some p) db =
    first_of (roots_first (filter (λ n. has_slug slug n && parent_matches (some p) n) db.nodes))

-- each node of the subtree, nearest first, with its validators
unfoldable pub subtree_with_validators : String → GeoDb → List (Option Node × List Validator)
unfolding descendant_ids node_by_id
subtree_with_validators i db =
    map (λ j. (node_by_id j db.nodes, filter (of_node j) db.validators)) (descendant_ids db.nodes i)
