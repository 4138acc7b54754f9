-- ===== src/Geography/References.antt =====
-- The foreign keys of the nodes and the validators, which the writes of api/src/services/nodes.ts
-- keep.
use citynode_app.Prelude.{
  String, some, subst, ◌≡◌, refl, inl, inr, true, List, [], ◌∷◌, ◌==◌, eq_iff, ◌&&◌, not, filter,
  arith, Bool-cases, Option-cases, All,
}
use citynode_app.Geography.Tree.{node_by_id}
use citynode_app.Geography.Types.{Node, Validator, GeoDb, ok}
use citynode_app.Geography.Nodes.{
  is_stored, parent_found, without_node, orphan, checked_nodes, slugs_unique, delete_node, cascaded,
}

-- The parents of some nodes and the nodes of some validators are stored in a table.
abbrev pub ParentsIn : List Node → List Node → Type 0
ParentsIn nodes rows = All (λ (n : Node). parent_found nodes n.parent_id ≡ true) rows

abbrev pub NodesIn : List Node → List Validator → Type 0
NodesIn nodes vs = All (λ (v : Validator). is_stored nodes v.node_id ≡ true) vs

pub found-parent :
    (all nodes : List Node) (j : String) (n : Node)
    → ParentsIn all nodes
    → node_by_id j nodes ≡ some n
    → parent_found all n.parent_id ≡ true
unfolding node_by_id
found-parent all [] j n p e = cc
found-parent all (m ∷ nodes) j n p e = elim (Bool-cases (m.id == j)) [
  | inl hit ↦
      let same : m ≡ n = cc (rw hit at e) in
      subst (λ (x : Node). parent_found all x.parent_id ≡ true) same p.0
  | inr miss ↦ found-parent all nodes j n p.1 (rw miss at e)
]

-- Every parent and every validator's node is stored.
pub record IsReferential (db : GeoDb) : Type 0 where
  pub parents : ParentsIn db.nodes db.nodes
  pub owners : NodesIn db.nodes db.validators

-- A node is in the table after a deletion exactly when it was there and is another.
is_stored-without :
    (i j : String) (nodes : List Node)
    → is_stored (without_node i nodes) j ≡ (is_stored nodes j && not (j == i))
unfolding without_node
is_stored-without i j [] = refl
is_stored-without i j (n ∷ nodes) =
    ground (arith, is_stored-without i j nodes, eq_iff n.id i, eq_iff n.id j, eq_iff j i)

orphan-found :
    (i : String) (nodes : List Node) (n : Node)
    → parent_found nodes n.parent_id ≡ true
    → parent_found (without_node i nodes) (orphan i n).parent_id ≡ true
orphan-found i nodes n h = elim (Option-cases n.parent_id) [
  | inl missed ↦ rw missed
  | inr (p, found) ↦ elim (Bool-cases (p == i)) [
    | inl hit ↦ rw (found, hit)
    | inr miss ↦ rw (found, miss, is_stored-without i p nodes, rw found at h, miss)
  ]
]

pub ParentsIn-without :
    (i : String) (nodes rows : List Node)
    → ParentsIn nodes rows
    → ParentsIn (without_node i nodes) (without_node i rows)
unfolding without_node
ParentsIn-without i nodes [] h = tt
ParentsIn-without i nodes (n ∷ rows) h = elim (Bool-cases (n.id == i)) [
  | inl hit ↦ rw hit (ParentsIn-without i nodes rows h.1)
  | inr miss ↦ rw miss (orphan-found i nodes n h.0, ParentsIn-without i nodes rows h.1)
]

NodesIn-without :
    (i : String) (nodes : List Node) (vs : List Validator)
    → NodesIn nodes vs
    → NodesIn (without_node i nodes) (filter (λ (v : Validator). not (v.node_id == i)) vs)
NodesIn-without i nodes [] h = tt
NodesIn-without i nodes (v ∷ vs) h = elim (Bool-cases (v.node_id == i)) [
  | inl hit ↦ rw hit (NodesIn-without i nodes vs h.1)
  | inr miss ↦
      rw miss (rw (is_stored-without i v.node_id nodes, h.0, miss), NodesIn-without i nodes vs h.1)
]

-- Deleting a node of a table whose parents and validators' nodes are stored: when it succeeds, the
-- node is gone, every other node is still stored and no parent and no validator refers to a missing
-- node. It succeeds whenever the children, made roots, leave the slugs unique.
pub delete_node-IsReferential :
    (i : String) (db : GeoDb)
    → IsReferential db
    → is_stored db.nodes i ≡ true
    → slugs_unique (without_node i db.nodes) ≡ true
    → (after : GeoDb) × (delete_node i db ≡ ok (true, after))
      × ((j : String) → is_stored after.nodes j ≡ (is_stored db.nodes j && not (j == i)))
      × IsReferential after
unfolding delete_node checked_nodes
delete_node-IsReferential i db t stored free = (
  cascaded i (without_node i db.nodes) db,
  rw (stored, free),
  (λ j. is_stored-without i j db.nodes),
  record {
    parents = ParentsIn-without i db.nodes db.nodes t.parents;
    owners = NodesIn-without i db.nodes db.validators t.owners;
  },
)
