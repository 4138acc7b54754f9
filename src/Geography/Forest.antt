-- ===== src/Geography/Forest.antt =====
-- The nodes of api/src/services/nodes.ts as a forest, and the writes that update a node.
use citynode_app.Prelude.{
  String, ◌≡◌, inl, inr, refl, sym, ap, ◌∙◌, true, false, Option, none, some, List, [], ◌∷◌, arith,
  ◌==◌, ◌||◌, Bool-cases,
}
use citynode_app.Geography.Types.{Node, GeoDb, GeoEnv, GeoResult, ok, ◌>>◌, require, invalid_slug}
use citynode_app.Geography.Tree.{member, node_by_id, descendant_ids}
use citynode_app.Geography.Nodes.{
  NodeUpdateInput, set_node, move_allowed, write_node, update_node, patch_node, is_stored,
  parent_found, set_bulletin, bulletin_of, slug_given,
}
use citynode_app.Geography.Validators.{default_to}
use citynode_app.Geography.Results.{
  >>=-eq-ok, >>-eq-ok, found_or-eq-ok, ok-injective, checked_nodes-eq-ok,
}
use citynode_app.Geography.Chains.{DistinctNodes, IsAcyclic}
use citynode_app.Geography.References.{ParentsIn}
use citynode_app.Geography.Moves.{
  KeepsNodeId, set_node-DistinctNodes, moved-IsAcyclic, unmoved-IsAcyclic,
}

pub record IsForest (nodes : List Node) : Type 0 where
  pub distinct : DistinctNodes nodes
  pub parents : ParentsIn nodes nodes
  pub acyclic : IsAcyclic nodes

is_stored-set_node :
    (i j : String) (set : Node → Node) (nodes : List Node)
    → KeepsNodeId set
    → is_stored (set_node i set nodes) j ≡ is_stored nodes j
unfolding set_node
is_stored-set_node i j set [] k = refl
is_stored-set_node i j set (m ∷ nodes) k = elim (Bool-cases (m.id == i)) [
  | inl hit ↦ rw hit (ap (λ x. (x == j) || is_stored nodes j) (k m))
  | inr miss ↦ rw miss (ap (λ b. (m.id == j) || b) (is_stored-set_node i j set nodes k))
]

parent_found-set_node :
    (i : String) (set : Node → Node) (nodes : List Node) (p : Option String)
    → KeepsNodeId set
    → parent_found nodes p ≡ true
    → parent_found (set_node i set nodes) p ≡ true
parent_found-set_node i set nodes none k h = refl
parent_found-set_node i set nodes (some p) k h = is_stored-set_node i p set nodes k ∙ h

-- The parents after an update whose own parent is stored.
module _ (i : String) (set : Node → Node) (nodes : List Node) (keeps : KeepsNodeId set)
    (kept : (m : Node)
      → parent_found nodes m.parent_id ≡ true
      → parent_found nodes (set m).parent_id ≡ true) where
  rows-set_node :
      (rows : List Node)
      → ParentsIn nodes rows
      → ParentsIn (set_node i set nodes) (set_node i set rows)
  unfolding set_node
  rows-set_node [] h = tt
  rows-set_node (m ∷ rows) h = elim (Bool-cases (m.id == i)) [
    | inl hit ↦
        rw hit
          (parent_found-set_node i set nodes (set m).parent_id keeps (kept m h.0), others rows h.1)
    | inr miss ↦
        rw miss (parent_found-set_node i set nodes m.parent_id keeps h.0, rows-set_node rows h.1)
  ]
    where
      others : (rows : List Node) → ParentsIn nodes rows → ParentsIn (set_node i set nodes) rows
      others [] h = tt
      others (m ∷ rows) h =
          (parent_found-set_node i set nodes m.parent_id keeps h.0, others rows h.1)

  set_node-ParentsIn :
      ParentsIn nodes nodes → ParentsIn (set_node i set nodes) (set_node i set nodes)
  set_node-ParentsIn h = rows-set_node nodes h

-- What a write of one row has stored.
write_node_inv :
    (i : String) (set : Node → Node) (db after : GeoDb) (row : Node)
    → write_node i set db ≡ ok (row, after)
    → (n : Node) × (node_by_id i db.nodes ≡ some n) × (after.nodes ≡ set_node i set db.nodes)
unfolding write_node
write_node_inv i set db after row h =
    let (n, found, rest) = >>=-eq-ok _ _ h in
    let (nodes, checked, last) = >>=-eq-ok _ _ rest in
    let same = (checked_nodes-eq-ok _ nodes checked).0 in
    (
      n,
      found_or-eq-ok _ _ found,
      sym (ap (λ (r : Node × GeoDb). r.1.nodes) (ok-injective last)) ∙ sym same,
    )

-- The guards of a move below `p`.
move_guards :
    (i p : String) (nodes : List Node) {u : Unit {0}}
    → move_allowed i (some (some p)) nodes ≡ ok u
    → (is_stored nodes p ≡ true) × (member p (descendant_ids nodes i) ≡ false)
unfolding move_allowed
move_guards i p nodes h = ground arith

moved-IsForest :
    (i : String) (input : NodeUpdateInput) (env : GeoEnv) (nodes : List Node) (n : Node)
    (q : Option (Option String)) {u : Unit {0}}
    → input.parent_id ≡ q
    → IsForest nodes
    → node_by_id i nodes ≡ some n
    → move_allowed i q nodes ≡ ok u
    → IsForest (set_node i (patch_node input env.now) nodes)
unfolding patch_node
moved-IsForest i input env nodes n none e f stored h = record {
  distinct = set_node-DistinctNodes i (patch_node input env.now) nodes (λ m. refl) f.distinct;
  parents =
      set_node-ParentsIn i (patch_node input env.now) nodes (λ m. refl) (λ m p. rw e p) f.parents;
  acyclic =
      unmoved-IsAcyclic i (patch_node input env.now) nodes n (λ m. refl) stored f.acyclic
        (inl (ap (default_to n.parent_id) e));
}
moved-IsForest i input env nodes n (some none) e f stored h = record {
  distinct = set_node-DistinctNodes i (patch_node input env.now) nodes (λ m. refl) f.distinct;
  parents =
      set_node-ParentsIn i (patch_node input env.now) nodes (λ m. refl) (λ m p. rw e refl)
        f.parents;
  acyclic =
      unmoved-IsAcyclic i (patch_node input env.now) nodes n (λ m. refl) stored f.acyclic
        (inr (ap (default_to n.parent_id) e));
}
moved-IsForest i input env nodes n (some (some p)) e f stored h =
    let (found, outside) = move_guards i p nodes h in
    record {
      distinct = set_node-DistinctNodes i (patch_node input env.now) nodes (λ m. refl) f.distinct;
      parents =
          set_node-ParentsIn i (patch_node input env.now) nodes (λ m. refl) (λ m q. rw e found)
            f.parents;
      acyclic =
          moved-IsAcyclic i (patch_node input env.now) nodes n (λ m. refl) stored p f.distinct
            f.acyclic (ap (default_to n.parent_id) e) outside;
    }

-- An update that succeeds, a move included, keeps the forest.
pub update_node-IsForest :
    (i : String) (input : NodeUpdateInput) (env : GeoEnv) (db after : GeoDb) (row : Node)
    → IsForest db.nodes
    → update_node i input env db ≡ ok (row, after)
    → IsForest after.nodes
unfolding update_node
update_node-IsForest i input env db after row f h =
    let guards : GeoResult (Unit {0}) =
      require (slug_given input.slug) invalid_slug >> move_allowed i input.parent_id db.nodes in
    let (guarded, written) = >>-eq-ok guards (write_node i (patch_node input env.now) db) h in
    let allowed =
      (>>-eq-ok (require (slug_given input.slug) invalid_slug)
        (move_allowed i input.parent_id db.nodes) guarded).1 in
    let (n, stored, same) = write_node_inv i (patch_node input env.now) db after row written in
    rw same (moved-IsForest i input env db.nodes n input.parent_id refl f stored allowed)

pub set_bulletin-IsForest :
    (i : String) (text : Option String) (env : GeoEnv) (db after : GeoDb) (row : Node)
    → IsForest db.nodes
    → set_bulletin i text env db ≡ ok (row, after)
    → IsForest after.nodes
unfolding set_bulletin
set_bulletin-IsForest i text env db after row f h =
    let set : Node → Node =
      λ n. record n { metadata = bulletin_of text n.metadata; updated_at = env.now } in
    let (n, stored, same) = write_node_inv i set db after row h in
    rw same (record {
      distinct = set_node-DistinctNodes i set db.nodes (λ m. refl) f.distinct;
      parents = set_node-ParentsIn i set db.nodes (λ m. refl) (λ m p. p) f.parents;
      acyclic = unmoved-IsAcyclic i set db.nodes n (λ m. refl) stored f.acyclic (inl refl);
    })
