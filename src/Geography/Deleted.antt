-- ===== src/Geography/Deleted.antt =====
-- The forest of api/src/services/nodes.ts when a node is deleted.
use citynode_app.Prelude.{
  String, ◌≡◌, inl, inr, refl, sym, ap, ◌∙◌, Bool, true, false, Option, none, some, List, [], ◌∷◌,
  ◌==◌, eq_iff, if◌then◌else◌, Bool-cases,
}
use citynode_app.Geography.Types.{Node, GeoDb, ok}
use citynode_app.Geography.Tree.{child_of, node_by_id}
use citynode_app.Geography.Nodes.{
  is_stored, orphan, without_node, delete_node, checked_nodes, cascaded,
}
use citynode_app.Geography.Results.{>>=-eq-ok, ok-injective, checked_nodes-eq-ok}
use citynode_app.Geography.Chains.{DistinctNodes, IsChild}
use citynode_app.Geography.Moves.{Below-mono}
use citynode_app.Geography.Forest.{IsForest}
use citynode_app.Geography.References.{ParentsIn-without}

orphan_id : (i : String) (n : Node) → (orphan i n).id ≡ n.id
orphan_id i n = elim (Bool-cases (child_of i n)) [ inl hit ↦ rw hit | inr miss ↦ rw miss ]

orphan_parent : (i b : String) (n : Node) → (orphan i n).parent_id ≡ some b → n.parent_id ≡ some b
orphan_parent i b n e = elim (Bool-cases (child_of i n)) [
  | inl hit ↦ cc (rw hit at e)
  | inr miss ↦ rw miss at e
]

node_by_id-orphan :
    (i j : String) (nodes : List Node) (m : Node)
    → DistinctNodes nodes
    → node_by_id j (without_node i nodes) ≡ some m
    → (n : Node) × (node_by_id j nodes ≡ some n) × (m ≡ orphan i n)
unfolding node_by_id without_node
node_by_id-orphan i j [] m d e = cc
node_by_id-orphan i j (n ∷ nodes) m d e = elim (Bool-cases (n.id == i)) [
  | inl gone ↦
      let (k, found, same) = node_by_id-orphan i j nodes m d.1 (rw gone at e) in
      elim (Bool-cases (n.id == j)) [
        | inl hit ↦ cc (found, rw ((eq_iff n.id j).0 hit) at (d.0))
        | inr miss ↦ (k, rw miss found, same)
      ]
  | inr stays ↦
      let row : (if (orphan i n).id == j
            then some (orphan i n)
            else node_by_id j (without_node i nodes))
          ≡ some m =
        rw stays at e in
      let id : ((orphan i n).id == j) ≡ (n.id == j) = ap (λ x. x == j) (orphan_id i n) in
      elim (Bool-cases (n.id == j)) [
        | inl hit ↦ (n, rw hit, sym (picked _ _ _ _ (id ∙ hit) row))
        | inr miss ↦
            let (k, found, same) =
              node_by_id-orphan i j nodes m d.1 (passed _ _ _ _ (id ∙ miss) row) in
            (k, rw miss found, same)
      ]
]
  where
    picked :
        (b : Bool) (x : Node) (o : Option Node) (y : Node)
        → b ≡ true
        → (if b then some x else o) ≡ some y
        → x ≡ y
    picked b x o y t h = cc (rw t at h)

    passed :
        (b : Bool) (x : Node) (o : Option Node) (y : Node)
        → b ≡ false
        → (if b then some x else o) ≡ some y
        → o ≡ some y
    passed b x o y t h = rw t at h

without_node-absent :
    (i j : String) (nodes : List Node)
    → node_by_id j nodes ≡ none
    → node_by_id j (without_node i nodes) ≡ none
unfolding node_by_id without_node
without_node-absent i j [] e = refl
without_node-absent i j (n ∷ nodes) e = elim (Bool-cases (n.id == j)) [
  | inl hit ↦ cc (rw hit at e)
  | inr miss ↦ elim (Bool-cases (n.id == i)) [
    | inl gone ↦ rw gone (without_node-absent i j nodes (rw miss at e))
    | inr stays ↦ rw (stays, orphan_id i n, miss) (without_node-absent i j nodes (rw miss at e))
  ]
]

without_node-DistinctNodes :
    (i : String) (nodes : List Node) → DistinctNodes nodes → DistinctNodes (without_node i nodes)
unfolding without_node
without_node-DistinctNodes i [] d = tt
without_node-DistinctNodes i (n ∷ nodes) d = elim (Bool-cases (n.id == i)) [
  | inl gone ↦ rw gone (without_node-DistinctNodes i nodes d.1)
  | inr stays ↦ rw stays (
    ap (λ j. node_by_id j (without_node i nodes)) (orphan_id i n)
        ∙ without_node-absent i n.id nodes d.0,
    without_node-DistinctNodes i nodes d.1,
  )
]

pub without_node-IsForest :
    (i : String) (nodes : List Node) → IsForest nodes → IsForest (without_node i nodes)
without_node-IsForest i nodes f = record {
  distinct = without_node-DistinctNodes i nodes f.distinct;
  parents = ParentsIn-without i nodes nodes f.parents;
  acyclic = λ x b. f.acyclic x (Below-mono step b);
}
  where
    step : (a b : String) → IsChild (without_node i nodes) a b → IsChild nodes a b
    step a b s =
        let (n, found, same) = node_by_id-orphan i a nodes s.node f.distinct s.stored in
        record {
          node = n;
          stored = found;
          parent = orphan_parent i b n (ap (λ (m : Node). m.parent_id) (sym same) ∙ s.parent);
        }

-- Deleting a node that succeeds keeps the forest.
pub delete_node-IsForest :
    (i : String) (db after : GeoDb) (gone : Bool)
    → IsForest db.nodes
    → delete_node i db ≡ ok (gone, after)
    → IsForest after.nodes
unfolding delete_node
delete_node-IsForest i db after gone f h = elim (Bool-cases (is_stored db.nodes i)) [
  | inl stored ↦
      let (nodes, checked, last) =
        >>=-eq-ok (checked_nodes (without_node i db.nodes)) (λ ns. ok (true, cascaded i ns db))
          (rw stored at h) in
      let same = (checked_nodes-eq-ok (without_node i db.nodes) nodes checked).0 in
      rw (← ap (λ (r : Bool × GeoDb). r.1.nodes) (ok-injective last), ← same)
        (without_node-IsForest i db.nodes f)
  | inr absent ↦ rw (← ap (λ (r : Bool × GeoDb). r.1.nodes) (ok-injective (rw absent at h))) (f)
]
