-- ===== src/Geography/Moves.antt =====
-- Moving a node in the tree of api/src/services/nodes.ts, and the chains of parents.
use citynode_app.Prelude.{
  String, ◌≡◌, ◌⊎◌, inl, inr, refl, sym, ap, ◌∙◌, subst, true, false, none, some, List, [], ◌∷◌,
  ◌==◌, eq_iff, Bool-cases,
}
use citynode_app.Geography.Types.{Node}
use citynode_app.Geography.Tree.{member, node_by_id, descendant_ids}
use citynode_app.Geography.Nodes.{set_node}
use citynode_app.Geography.Chains.{
  DistinctNodes, IsChild, Below, child, further, AtOrBelow, Below-trans, IsChild-AtOrBelow,
  IsAcyclic,
}
use citynode_app.Geography.Subtree.{descendant_ids_iff}

abbrev pub KeepsNodeId : (Node → Node) → Type 0
KeepsNodeId set = (n : Node) → (set n).id ≡ n.id

pub node_by_id-set_node_self :
    (i : String) (set : Node → Node) (nodes : List Node) (n : Node)
    → KeepsNodeId set
    → node_by_id i nodes ≡ some n
    → node_by_id i (set_node i set nodes) ≡ some (set n)
unfolding node_by_id set_node
node_by_id-set_node_self i set [] n k e = cc
node_by_id-set_node_self i set (m ∷ nodes) n k e = elim (Bool-cases (m.id == i)) [
  | inl hit ↦
      let same : m ≡ n = cc (rw hit at e) in
      let there : ((set m).id == i) ≡ true = ap (λ j. j == i) (k m) ∙ hit in
      rw (hit, there) (ap (λ x. some (set x)) same)
  | inr miss ↦ rw (miss, miss) (node_by_id-set_node_self i set nodes n k (rw miss at e))
]

pub node_by_id-set_node_ne :
    (i j : String) (set : Node → Node) (nodes : List Node)
    → KeepsNodeId set
    → (i == j) ≡ false
    → node_by_id j (set_node i set nodes) ≡ node_by_id j nodes
unfolding node_by_id set_node
node_by_id-set_node_ne i j set [] k ne = refl
node_by_id-set_node_ne i j set (m ∷ nodes) k ne = elim (Bool-cases (m.id == i)) [
  | inl hit ↦
      let other : (m.id == j) ≡ false = rw ((eq_iff m.id i).0 hit) ne in rw (hit, k m, other)
  | inr miss ↦ elim (Bool-cases (m.id == j)) [
    | inl found ↦ rw (miss, found)
    | inr absent ↦ rw (miss, absent) (node_by_id-set_node_ne i j set nodes k ne)
  ]
]

set_node-absent :
    (i j : String) (set : Node → Node) (nodes : List Node)
    → KeepsNodeId set
    → node_by_id j nodes ≡ none
    → node_by_id j (set_node i set nodes) ≡ none
unfolding node_by_id set_node
set_node-absent i j set [] k e = refl
set_node-absent i j set (m ∷ nodes) k e = elim (Bool-cases (m.id == j)) [
  | inl found ↦ cc (rw found at e)
  | inr absent ↦ elim (Bool-cases (m.id == i)) [
    | inl hit ↦ rw (hit, k m, absent) (rw absent at e)
    | inr miss ↦ rw (miss, absent) (set_node-absent i j set nodes k (rw absent at e))
  ]
]

pub set_node-DistinctNodes :
    (i : String) (set : Node → Node) (nodes : List Node)
    → KeepsNodeId set
    → DistinctNodes nodes
    → DistinctNodes (set_node i set nodes)
unfolding set_node
set_node-DistinctNodes i set [] k d = tt
set_node-DistinctNodes i set (m ∷ nodes) k d = elim (Bool-cases (m.id == i)) [
  | inl hit ↦ rw hit (ap (λ j. node_by_id j nodes) (k m) ∙ d.0, d.1)
  | inr miss ↦
      rw miss (set_node-absent i m.id set nodes k d.0, set_node-DistinctNodes i set nodes k d.1)
]

-- Chains in a table whose steps are all steps of another.
pub Below-mono :
    {rows nodes : List Node}
    → ((a b : String) → IsChild rows a b → IsChild nodes a b)
    → {top low : String} → Below rows top low
    → Below nodes top low
Below-mono f (child {low = low} s) = child (f low _ s)
Below-mono f (further {low = low} {mid = mid} s p) = further (f low mid s) (Below-mono f p)

pub AtOrBelow-trans :
    {nodes : List Node} {a b c : String}
    → AtOrBelow nodes a b
    → AtOrBelow nodes b c
    → AtOrBelow nodes a c
AtOrBelow-trans {nodes} {a = a} p (inl e) = subst (AtOrBelow nodes a) (sym e) p
AtOrBelow-trans {nodes} {c = c} (inl e) (inr q) = inr (subst (λ x. Below nodes x c) e q)
AtOrBelow-trans (inr p) (inr q) = inr (Below-trans q p)

module _ (i : String) (set : Node → Node) (nodes : List Node) (n : Node) (keeps : KeepsNodeId set)
    (stored : node_by_id i nodes ≡ some n) where
  -- A step after the update is a step before it, or the step from the updated row.
  step_before :
      (a b : String)
      → IsChild (set_node i set nodes) a b
      → IsChild nodes a b ⊎ ((a ≡ i) × ((set n).parent_id ≡ some b))
  step_before a b s = elim (Bool-cases (i == a)) [
    | inl hit ↦
        let same : a ≡ i = sym ((eq_iff i a).0 hit) in
        let row : some (set n) ≡ some s.node =
          sym (node_by_id-set_node_self i set nodes n keeps stored)
          ∙ ap (λ j. node_by_id j (set_node i set nodes)) (sym same)
          ∙ s.stored in
        let node : set n ≡ s.node = cc row in
        inr (same, ap (λ (m : Node). m.parent_id) node ∙ s.parent)
    | inr miss ↦ inl (record {
      node = s.node;
      stored = sym (node_by_id-set_node_ne i a set nodes keeps miss) ∙ s.stored;
      parent = s.parent;
    })
  ]

  -- A chain after a move below `p`: it is one from before, or it goes through the moved node.
  Below-moved :
      (p : String) {top low : String}
      → (set n).parent_id ≡ some p
      → Below (set_node i set nodes) top low
      → Below nodes top low ⊎ (AtOrBelow nodes i low × AtOrBelow nodes top p)
  Below-moved p {top} moved (child {low = low} s) = elim (step_before low top s) [
    | inl old ↦ inl (child old)
    | inr (same, new) ↦ let e : p ≡ top = cc (moved, new) in inr (inl same, inl e)
  ]
  Below-moved p {top} moved (further {low = low} {mid = mid} s b) = elim (step_before low mid s) [
    | inl old ↦ elim (Below-moved p moved b) [
      | inl before ↦ inl (further old before)
      | inr (under, above) ↦ inr (inr (IsChild-AtOrBelow old under), above)
    ]
    | inr (same, new) ↦
        let e : mid ≡ p = cc (moved, new) in
        elim (Below-moved p moved b) [
          | inl before ↦ inr (inl same, inr (subst (Below nodes top) e before))
          | inr (under, above) ↦ inr (inl same, above)
        ]
  ]

  pub moved-IsAcyclic :
      (p : String)
      → DistinctNodes nodes
      → IsAcyclic nodes
      → (set n).parent_id ≡ some p
      → member p (descendant_ids nodes i) ≡ false
      → IsAcyclic (set_node i set nodes)
  moved-IsAcyclic p d acyclic moved outside x b = elim (Below-moved p moved b) [
    | inl before ↦ acyclic x before
    | inr (under, above) ↦
        let inside : member p (descendant_ids nodes i) ≡ true =
          (descendant_ids_iff nodes i p n d acyclic stored).1 (AtOrBelow-trans under above) in
        cc (inside, outside)
  ]

  -- An update that keeps the parent of its row, or makes it a root.
  pub unmoved-IsAcyclic :
      IsAcyclic nodes
      → ((set n).parent_id ≡ n.parent_id) ⊎ ((set n).parent_id ≡ none)
      → IsAcyclic (set_node i set nodes)
  unmoved-IsAcyclic acyclic how x b = acyclic x (Below-mono old b)
    where
      old : (a b : String) → IsChild (set_node i set nodes) a b → IsChild nodes a b
      old a b s = elim (step_before a b s) [
        | inl before ↦ before
        | inr (same, new) ↦ elim how [
          | inl kept ↦ record {
            node = n;
            stored = ap (λ j. node_by_id j nodes) same ∙ stored;
            parent = sym kept ∙ new;
          }
          | inr root ↦ cc (root, new)
        ]
      ]
