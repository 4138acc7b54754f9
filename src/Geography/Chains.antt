-- ===== src/Geography/Chains.antt =====
-- Chains of parents in the table of nodes of api/src/services/nodes.ts.
use citynode_app.Prelude.{
  String, ◌≡◌, ◌⊎◌, inl, inr, subst, none, some, List, [], ◌∷◌, ◌==◌, eq_iff, eq_refl, Bool-cases,
  All,
}
use citynode_app.Geography.Types.{Node}
use citynode_app.Geography.Tree.{node_by_id}

-- The primary keys differ.
abbrev pub DistinctNodes : List Node → Type 0
DistinctNodes [] = Unit
DistinctNodes (n ∷ nodes) = (node_by_id n.id nodes ≡ none) × DistinctNodes nodes

-- The row of `a` names `b` as its parent.
pub record IsChild (nodes : List Node) (a b : String) : Type 0 where
  pub node : Node
  pub stored : node_by_id a nodes ≡ some node
  pub parent : node.parent_id ≡ some b

-- One or more steps from child to parent lead from `low` to `top`.
pub data Below (nodes : List Node) (top : String) : String → Type 0 where
  child : {low : String} → IsChild nodes low top → Below nodes top low
  further : {low mid : String} → IsChild nodes low mid → Below nodes top mid → Below nodes top low

abbrev pub AtOrBelow : List Node → String → String → Type 0
AtOrBelow nodes top low = (low ≡ top) ⊎ Below nodes top low

pub Below-trans :
    {nodes : List Node} {a b c : String} → Below nodes b c → Below nodes a b → Below nodes a c
Below-trans (child s) q = further s q
Below-trans (further s p) q = further s (Below-trans p q)

-- A step below a chain.
pub IsChild-AtOrBelow :
    {nodes : List Node} {top mid low : String}
    → IsChild nodes low mid
    → AtOrBelow nodes top mid
    → Below nodes top low
IsChild-AtOrBelow {nodes} {low = low} s (inl e) = child (subst (IsChild nodes low) e s)
IsChild-AtOrBelow s (inr b) = further s b

-- No chain leads from a node to itself.
abbrev pub IsAcyclic : List Node → Type 0
IsAcyclic nodes = (i : String) → ¬ Below nodes i i

node_by_id-absent :
    (m : Node) (i : String) (nodes : List Node) (n : Node)
    → node_by_id m.id nodes ≡ none
    → node_by_id i nodes ≡ some n
    → node_by_id i (m ∷ nodes) ≡ some n
unfolding node_by_id
node_by_id-absent m i nodes n absent found = elim (Bool-cases (m.id == i)) [
  | inl same ↦ cc (found, rw ((eq_iff m.id i).0 same) at absent)
  | inr other ↦ rw other found
]

found-within :
    (m : Node) (all nodes : List Node)
    → node_by_id m.id all ≡ none
    → All (λ (n : Node). node_by_id n.id all ≡ some n) nodes
    → All (λ (n : Node). node_by_id n.id (m ∷ all) ≡ some n) nodes
found-within m all [] absent h = tt
found-within m all (n ∷ nodes) absent h =
    (node_by_id-absent m n.id all n absent h.0, found-within m all nodes absent h.1)

-- Every row is the row of its primary key.
pub found_by_id :
    (nodes : List Node)
    → DistinctNodes nodes
    → All (λ (n : Node). node_by_id n.id nodes ≡ some n) nodes
unfolding node_by_id
found_by_id [] d = tt
found_by_id (n ∷ nodes) d =
    (rw (eq_refl n.id), found-within n nodes nodes d.0 (found_by_id nodes d.1))
