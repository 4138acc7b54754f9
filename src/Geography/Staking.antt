-- ===== src/Geography/Staking.antt =====
-- `resolveForStaking` and `stakeableNodeIds` of api/src/services/validators.ts. A query that states
-- no order answers in table order; the descendants come by levels. `sort` is stable: insertion sort.
use citynode_app.Prelude.{
  ℕ, suc, String, Bool, true, false, none, some, List, [], ◌∷◌, map, if◌then◌else◌, ◌==◌, ◌&&◌,
  ◌||◌, not, any, filter, find, leb,
}
use citynode_app.Geography.Types.{
  Node, Validator, GeoDb, GeoResult, ok, ◌>>=◌, found_or, node_not_found,
}
use citynode_app.Geography.Tree.{member, node_by_id, descendant_ids, ancestor_ids}

-- `indexOf` of an element; the length stands for a missing one, where the lookups have none
unfoldable pub index_of : String → List String → ℕ
index_of x [] = 0
index_of x (y ∷ ys) = if y == x then 0 else suc (index_of x ys)

-- the comparison of `a` with `b` is not positive, when `ids` has both nodes
unfoldable pub default_then_depth : List String → Validator → Validator → Bool
unfolding index_of
default_then_depth ids a b =
    if a.is_default && not b.is_default
    then true
    else if b.is_default && not a.is_default
    then false
    else leb (index_of a.node_id ids) (index_of b.node_id ids)

unfoldable pub by_depth : List String → Validator → Validator → Bool
unfolding index_of
by_depth ids a b = leb (index_of a.node_id ids) (index_of b.node_id ids)

unfoldable pub insert_sorted :
    (Validator → Validator → Bool) → Validator → List Validator → List Validator
insert_sorted le v [] = v ∷ []
insert_sorted le v (w ∷ ws) =
    let rest = insert_sorted le v ws in if le v w then v ∷ w ∷ ws else w ∷ rest

unfoldable pub sort : (Validator → Validator → Bool) → List Validator → List Validator
unfolding insert_sorted
sort le [] = []
sort le (v ∷ vs) = insert_sorted le v (sort le vs)

-- `inArray(nodeId, ids)`
unfoldable pub of_nodes : List String → List Validator → List Validator
of_nodes ids vs = filter (λ (v : Validator). member v.node_id ids) vs

abbrev pub first_node : String → List Validator → String
first_node node [] = node
first_node node (v ∷ vs) = v.node_id

-- `ordered.find(v => v.nodeId === nodeId)?.nodeId ?? ordered[0]?.nodeId ?? nodeId`
abbrev pub source_node : String → List Validator → String
source_node node ordered = elim (find (λ (v : Validator). v.node_id == node) ordered) [
  | none ↦ first_node node ordered
  | some v ↦ v.node_id
]

-- what the ancestors give when the node and its descendants have no validator
unfoldable pub from_ancestors : String → List String → List Validator → List Validator × String
unfolding sort by_depth of_nodes
from_ancestors node ids vs =
    let ordered = sort (by_depth ids) (of_nodes ids vs) in (ordered, first_node node ordered)

unfoldable pub from_descendants : String → List String → List Validator → List Validator × String
unfolding sort default_then_depth
from_descendants node ids own =
    let ordered = sort (default_then_depth ids) own in (ordered, source_node node ordered)

abbrev pub own_or_ancestors : String → GeoDb → List Validator → List Validator × String
own_or_ancestors node db [] = from_ancestors node (ancestor_ids db.nodes node) db.validators
own_or_ancestors node db (v ∷ vs) = from_descendants node (descendant_ids db.nodes node) (v ∷ vs)

unfoldable pub resolve_for_staking : String → GeoDb → GeoResult (List Validator × String)
resolve_for_staking node db = do
  found ← found_or (node_by_id node db.nodes) node_not_found
  ok (own_or_ancestors node db (of_nodes (descendant_ids db.nodes node) db.validators))

-- a validator of a descendant or of an ancestor
unfoldable pub has_related : GeoDb → String → Bool
has_related db i =
    any
      (λ (v : Validator).
        member v.node_id (descendant_ids db.nodes i) || member v.node_id (ancestor_ids db.nodes i))
      db.validators

-- the set of the stored nodes among `ids` that have a related validator
unfoldable pub stakeable_node_ids : List String → GeoDb → List String
unfolding has_related
stakeable_node_ids ids db =
    filter (λ i. member i ids && has_related db i) (map (λ (n : Node). n.id) db.nodes)
