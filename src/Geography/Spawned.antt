-- ===== src/Geography/Spawned.antt =====
-- The forest of api/src/services/nodes.ts when a node is inserted.
use citynode_app.Prelude.{
  String, ◌≡◌, inl, inr, refl, sym, ap, ◌∙◌, subst, Bool, true, false, Option, none, some, List, [],
  ◌∷◌, ◌++◌, arith, ◌==◌, eq_iff, ◌&&◌, not, if◌then◌else◌, Bool-cases,
}
use citynode_app.Geography.Types.{
  Node, GeoDb, GeoEnv, GeoResult, ok, ◌>>◌, require, parent_not_found, invalid_slug,
  tenant_not_found, database,
}
use citynode_app.Geography.Tree.{node_by_id}
use citynode_app.Geography.Nodes.{
  NodeSpawnInput, new_node, insert_node, spawn, is_stored, parent_found, checked_nodes,
  tenant_found, known_tenant,
}
use citynode_app.Geography.Results.{
  >>=-eq-ok, >>-eq-ok, require-eq-ok, ok-injective, checked_nodes-eq-ok,
}
use citynode_app.Geography.Chains.{DistinctNodes, IsChild, Below, child, further}
use citynode_app.Geography.Slugs.{valid_slug}
use citynode_app.Geography.References.{ParentsIn, found-parent}
use citynode_app.Geography.Forest.{IsForest}

node_by_id-append_other :
    (j : String) (nodes : List Node) (new : Node)
    → (new.id == j) ≡ false
    → node_by_id j (nodes ++ new ∷ []) ≡ node_by_id j nodes
unfolding node_by_id
node_by_id-append_other j [] new ne = rw ne
node_by_id-append_other j (m ∷ nodes) new ne = elim (Bool-cases (m.id == j)) [
  | inl hit ↦ rw hit
  | inr miss ↦ rw miss (node_by_id-append_other j nodes new ne)
]

append-DistinctNodes :
    (nodes : List Node) (new : Node)
    → DistinctNodes nodes
    → is_stored nodes new.id ≡ false
    → DistinctNodes (nodes ++ new ∷ [])
unfolding node_by_id
append-DistinctNodes [] new d fresh = (refl, tt)
append-DistinctNodes (m ∷ nodes) new d fresh = (
  node_by_id-append_other m.id nodes new (ground (arith, eq_iff m.id new.id, eq_iff new.id m.id))
      ∙ d.0,
  append-DistinctNodes nodes new d.1 (ground arith),
)

is_stored-append :
    (nodes : List Node) (new : Node) (j : String)
    → is_stored nodes j ≡ true
    → is_stored (nodes ++ new ∷ []) j ≡ true
is_stored-append [] new j h = cc
is_stored-append (m ∷ nodes) new j h = ground (arith, is_stored-append nodes new j)

parent_found-append :
    (nodes : List Node) (new : Node) (p : Option String)
    → parent_found nodes p ≡ true
    → parent_found (nodes ++ new ∷ []) p ≡ true
parent_found-append nodes new none h = refl
parent_found-append nodes new (some p) h = is_stored-append nodes new p h

append-ParentsIn :
    (nodes rows : List Node) (new : Node)
    → parent_found nodes new.parent_id ≡ true
    → ParentsIn nodes rows
    → ParentsIn (nodes ++ new ∷ []) (rows ++ new ∷ [])
append-ParentsIn nodes [] new h p = (parent_found-append nodes new new.parent_id h, tt)
append-ParentsIn nodes (m ∷ rows) new h p =
    (parent_found-append nodes new m.parent_id p.0, append-ParentsIn nodes rows new h p.1)

last_row :
    (j : String) (nodes : List Node) (new n : Node)
    → is_stored nodes j ≡ false
    → node_by_id j (nodes ++ new ∷ []) ≡ some n
    → new ≡ n
unfolding node_by_id
last_row j [] new n h e = ground_last new n (new.id == j) e
  where
    ground_last : (new n : Node) (b : Bool) → (if b then some new else none) ≡ some n → new ≡ n
    ground_last new n true e = cc
    ground_last new n false e = cc
last_row j (m ∷ nodes) new n h e = elim (Bool-cases (m.id == j)) [
  | inl hit ↦ cc (rw hit at h)
  | inr miss ↦ last_row j nodes new n (rw miss at h) (rw miss at e)
]

and_left : (a b : Bool) → (not a && b) ≡ true → a ≡ false
and_left true b h = cc
and_left false b h = refl

module _ (nodes : List Node) (new : Node) (forest : IsForest nodes)
    (fresh : is_stored nodes new.id ≡ false)
    (founded : parent_found nodes new.parent_id ≡ true) where
  -- A stored node has the parent it had.
  appended_step :
      (low mid : String)
      → is_stored nodes low ≡ true
      → IsChild (nodes ++ new ∷ []) low mid
      → IsChild nodes low mid × (is_stored nodes mid ≡ true)
  appended_step low mid h s =
      let other : (new.id == low) ≡ false = elim (Bool-cases (new.id == low)) [
        | inl same ↦ cc (h, fresh, ap (is_stored nodes) ((eq_iff new.id low).0 same))
        | inr ne ↦ ne
      ] in
      let stored : node_by_id low nodes ≡ some s.node =
        sym (node_by_id-append_other low nodes new other) ∙ s.stored in
      (
        record { node = s.node; stored = stored; parent = s.parent },
        rw s.parent at (found-parent nodes nodes low s.node forest.parents stored),
      )

  -- A parent is stored before the row is appended.
  appended_parent :
      (low mid : String) → IsChild (nodes ++ new ∷ []) low mid → is_stored nodes mid ≡ true
  appended_parent low mid s = elim (Bool-cases (is_stored nodes low)) [
    | inl h ↦ (appended_step low mid h s).1
    | inr absent ↦
        let row : new ≡ s.node = last_row low nodes new s.node absent s.stored in
        rw s.parent at (subst (λ (x : Node). parent_found nodes x.parent_id ≡ true) row founded)
  ]

  appended_chain :
      {top low : String}
      → is_stored nodes low ≡ true
      → Below (nodes ++ new ∷ []) top low
      → Below nodes top low
  appended_chain {top} h (child {low = low} s) = child (appended_step low top h s).0
  appended_chain h (further {low = low} {mid = mid} s b) =
      let (old, stored) = appended_step low mid h s in further old (appended_chain stored b)

  chain_top : {top low : String} → Below (nodes ++ new ∷ []) top low → is_stored nodes top ≡ true
  chain_top {top} (child {low = low} s) = appended_parent low top s
  chain_top (further s b) = chain_top b

  append-IsForest : IsForest (nodes ++ new ∷ [])
  append-IsForest = record {
    distinct = append-DistinctNodes nodes new forest.distinct fresh;
    parents = append-ParentsIn nodes nodes new founded forest.parents;
    acyclic = λ x b. forest.acyclic x (appended_chain (chain_top b) b);
  }

-- Spawning a node that succeeds keeps the forest.
pub spawn-IsForest :
    (input : NodeSpawnInput) (env : GeoEnv) (db after : GeoDb) (row : Node)
    → IsForest db.nodes
    → spawn input env db ≡ ok (row, after)
    → IsForest after.nodes
unfolding spawn insert_node new_node
spawn-IsForest input env db after row f h =
    let g1 : GeoResult (Unit {0}) = require (valid_slug input.slug) invalid_slug in
    let g2 : GeoResult (Unit {0}) =
      require (tenant_found db.tenants input.tenant_id) tenant_not_found in
    let g3 : GeoResult (Unit {0}) =
      require (parent_found db.nodes input.parent_id) parent_not_found in
    let new : Node = new_node input env in
    let g4 : GeoResult (Unit {0}) =
      require (not (is_stored db.nodes new.id) && known_tenant db.tenants new.tenant_id) database in
    let (nodes, inserted, last) =
      >>=-eq-ok (g1 >> g2 >> g3 >> insert_node new db) (λ ns. ok (new, record db { nodes = ns }))
        h in
    let (guards, stored) = >>-eq-ok (g1 >> g2 >> g3) (insert_node new db) inserted in
    let founded =
      require-eq-ok (parent_found db.nodes input.parent_id) parent_not_found
        (>>-eq-ok (g1 >> g2) g3 guards).1 in
    let (free, checked) = >>-eq-ok g4 (checked_nodes (db.nodes ++ new ∷ [])) stored in
    let fresh = and_left _ _ (require-eq-ok _ database free) in
    let same = (checked_nodes-eq-ok (db.nodes ++ new ∷ []) nodes checked).0 in
    rw (← ap (λ (r : Node × GeoDb). r.1.nodes) (ok-injective last), ← same)
      (append-IsForest db.nodes new f fresh founded)
