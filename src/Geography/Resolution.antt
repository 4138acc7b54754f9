-- ===== src/Geography/Resolution.antt =====
-- What `resolveForStaking` of api/src/services/validators.ts answers.
use citynode_app.Prelude.{
  ◌≤◌, String, ◌≡◌, ◌∙◌, inl, inr, refl, Bool, true, none, some, List, [], ◌∷◌, arith, ◌==◌, eq_iff,
  find, Bool-cases,
}
use citynode_app.Geography.Types.{Node, Validator, GeoDb, ok}
use citynode_app.Geography.Tree.{node_by_id, descendant_ids, ancestor_ids}
use citynode_app.Geography.Staking.{
  default_then_depth, by_depth, sort, of_nodes, first_node, source_node, from_ancestors,
  from_descendants, own_or_ancestors, resolve_for_staking,
}
use citynode_app.Geography.Sorting.{
  count, IsDefaultsFirst, IsNearestFirst, IsOrdering, default_then_depth-IsTotalOrder,
  by_depth-IsTotalOrder, default_then_depth-IsDefaultsFirst, by_depth-IsNearestFirst,
  sort-IsOrdering,
}

-- The node of the first validator, or the node asked for where there is none.
abbrev pub IsFirst : String → List Validator → String → Type 0
IsFirst i [] source = source ≡ i
IsFirst i (v ∷ vs) source = source ≡ v.node_id

-- What is answered, by whether the node and its descendants have validators.
pub data Selection (i : String) (own inherited : List Validator) (db : GeoDb)
    (ordered : List Validator) (source : String) : Type 0 where
  of_descendants :
      1 ≤ count (λ v. true) own
      → IsOrdering (IsDefaultsFirst (descendant_ids db.nodes i)) own ordered
      → (1 ≤ count (λ (v : Validator). v.node_id == i) own → source ≡ i)
      → (count (λ (v : Validator). v.node_id == i) own ≡ 0 → IsFirst i ordered source)
      → Selection i own inherited db ordered source
  of_ancestors :
      own ≡ []
      → IsOrdering (IsNearestFirst (ancestor_ids db.nodes i)) inherited ordered
      → IsFirst i ordered source
      → Selection i own inherited db ordered source

first_node-IsFirst : (i : String) (vs : List Validator) → IsFirst i vs (first_node i vs)
first_node-IsFirst i [] = refl
first_node-IsFirst i (v ∷ vs) = refl

no_own_node :
    (i : String) (vs : List Validator)
    → count (λ (v : Validator). v.node_id == i) vs ≡ 0
    → find (λ (v : Validator). v.node_id == i) vs ≡ none
no_own_node i [] h = refl
no_own_node i (v ∷ vs) h = ground (arith, h, no_own_node i vs)

source_node-IsFirst :
    (i : String) (vs : List Validator)
    → count (λ (v : Validator). v.node_id == i) vs ≡ 0
    → IsFirst i vs (source_node i vs)
source_node-IsFirst i vs h = rw (source_node, no_own_node i vs h) (first_node-IsFirst i vs)

source_node_lem :
    (i : String) (vs : List Validator)
    → 1 ≤ count (λ (v : Validator). v.node_id == i) vs
    → source_node i vs ≡ i
source_node_lem i vs h = go vs h
  where
    go :
        (rest : List Validator)
        → 1 ≤ count (λ (v : Validator). v.node_id == i) rest
        → (elim (find (λ (v : Validator). v.node_id == i) rest) [
          | none ↦ first_node i vs
          | some v ↦ v.node_id
        ])
          ≡ i
    go [] h = absurd (omega (arith, h))
    go (v ∷ rest) h = elim (Bool-cases (v.node_id == i)) [
      | inl here ↦ rw here ((eq_iff v.node_id i).0 here)
      | inr other ↦ rw other (go rest (rw other at h))
    ]

selected :
    (i : String) (db : GeoDb) (own : List Validator)
    → Selection i own
        (of_nodes (ancestor_ids db.nodes i) db.validators)
        db
        (own_or_ancestors i db own).0
        (own_or_ancestors i db own).1
unfolding from_ancestors from_descendants
selected i db [] =
    let ids = ancestor_ids db.nodes i in
    let vs = of_nodes ids db.validators in
    of_ancestors refl
      (sort-IsOrdering (by_depth ids) (IsNearestFirst ids) vs (by_depth-IsTotalOrder ids)
        (by_depth-IsNearestFirst ids))
      (first_node-IsFirst i (sort (by_depth ids) vs))
selected i db (v ∷ vs) =
    let ids = descendant_ids db.nodes i in
    let on_node : Validator → Bool = λ (w : Validator). w.node_id == i in
    let sorted = sort (default_then_depth ids) (v ∷ vs) in
    let ordered =
      sort-IsOrdering (default_then_depth ids) (IsDefaultsFirst ids) (v ∷ vs)
        (default_then_depth-IsTotalOrder ids) (default_then_depth-IsDefaultsFirst ids) in
    of_descendants (omega arith) ordered
      (λ h. source_node_lem i sorted (omega (arith, h, ordered.same on_node)))
      (λ h. source_node-IsFirst i sorted (ordered.same on_node ∙ h))

-- Resolving a stored node for staking answers all the validators of the node and its descendants if
-- there are any: every default before every other, and of two alike the one whose node the query
-- found first; the source is the node if it has a validator of its own, and the node of the first
-- validator otherwise. If there are none it answers all the validators of its ancestors, nearest
-- first, with the first one's node as the source.
pub resolve_for_staking_lem :
    (i : String) (db : GeoDb) (n : Node)
    → node_by_id i db.nodes ≡ some n
    → (ordered : List Validator) × (source : String) × (resolve_for_staking i db
        ≡ ok (ordered, source))
      × Selection i
          (of_nodes (descendant_ids db.nodes i) db.validators)
          (of_nodes (ancestor_ids db.nodes i) db.validators)
          db
          ordered
          source
unfolding resolve_for_staking
resolve_for_staking_lem i db n found =
    let own : List Validator = of_nodes (descendant_ids db.nodes i) db.validators in
    ((own_or_ancestors i db own).0, (own_or_ancestors i db own).1, rw found, selected i db own)
