-- ===== src/Geography/Ancestors.antt =====
-- The recursive query of api/src/services/validators.ts for the ancestors of a node, beside the
-- chains of parents.
use citynode_app.Prelude.{
  ℕ, zero, suc, ◌+◌, ◌≤◌, String, ◌≡◌, ◌↔◌, inl, inr, refl, sym, ap, ◌∙◌, subst, true, false,
  Option, none, some, List, [], ◌∷◌, arith, ◌==◌, eq_iff, eq_refl, length, Bool-cases, All,
  All-mono,
}
use citynode_app.Geography.Types.{Node}
use citynode_app.Geography.Tree.{member, node_by_id, climb, ancestor_ids, descendant_ids}
use citynode_app.Geography.Fuel.{ancestors_settle, node_by_id-stored}
use citynode_app.Geography.Chains.{
  DistinctNodes, IsChild, Below, child, further, AtOrBelow, Below-trans, IsAcyclic,
}
use citynode_app.Geography.Nodes.{is_stored, parent_found}
use citynode_app.Geography.References.{ParentsIn, found-parent}
use citynode_app.Geography.Moves.{AtOrBelow-trans}
use citynode_app.Geography.Subtree.{descendant_ids_iff}

-- the row that `climb` goes on with
abbrev parent_row : List Node → Option String → Option Node
parent_row nodes none = none
parent_row nodes (some p) = node_by_id p nodes

parent_step :
    (nodes : List Node) (n m : Node) (q : Option String)
    → node_by_id n.id nodes ≡ some n
    → n.parent_id ≡ q
    → parent_row nodes q ≡ some m
    → IsChild nodes n.id m.id
parent_step nodes n m none stored e found = cc
parent_step nodes n m (some p) stored e found = record {
  node = n;
  stored = stored;
  parent = e ∙ ap some (sym (node_by_id-stored p nodes m found).0);
}

found_self :
    (nodes : List Node) (p : String) (m : Node)
    → node_by_id p nodes ≡ some m
    → node_by_id m.id nodes ≡ some m
found_self nodes p m e = ap (λ j. node_by_id j nodes) (node_by_id-stored p nodes m e).0 ∙ e

parent_found_self :
    (nodes : List Node) (q : Option String) (m : Node)
    → parent_row nodes q ≡ some m
    → node_by_id m.id nodes ≡ some m
parent_found_self nodes none m e = cc
parent_found_self nodes (some p) m e = found_self nodes p m e

climb-AtOrBelow :
    (fuel : ℕ) (nodes : List Node) (path : List String) (i : String) (o : Option Node)
    → ((n : Node) → o ≡ some n → (node_by_id n.id nodes ≡ some n) × AtOrBelow nodes n.id i)
    → All (λ x. AtOrBelow nodes x i) (climb fuel nodes path o)
unfolding climb
climb-AtOrBelow zero nodes path i o h = tt
climb-AtOrBelow (suc fuel) nodes path i none h = tt
climb-AtOrBelow (suc fuel) nodes path i (some n) h = elim (Bool-cases (member n.id path)) [
  | inl again ↦ rw (again, climb) tt
  | inr new ↦
      let (stored, above) = h n refl in
      rw (new, climb)
        (
          above,
          climb-AtOrBelow fuel nodes (n.id ∷ path) i (parent_row nodes n.parent_id) (λ m e. (
            parent_found_self nodes n.parent_id m e,
            AtOrBelow-trans (inr (child (parent_step nodes n m n.parent_id stored refl e))) above,
          )),
        )
]

stored_row :
    (nodes : List Node) (p : String)
    → is_stored nodes p ≡ true
    → (m : Node) × (node_by_id p nodes ≡ some m)
unfolding node_by_id
stored_row [] p h = cc
stored_row (n ∷ nodes) p h = elim (Bool-cases (n.id == p)) [
  | inl hit ↦ (n, rw hit)
  | inr miss ↦ let (m, e) = stored_row nodes p (rw miss at h) in (m, rw miss e)
]

stored_parent :
    (nodes : List Node) (low mid : String)
    → ParentsIn nodes nodes
    → IsChild nodes low mid
    → (m : Node) × (node_by_id mid nodes ≡ some m)
stored_parent nodes low mid h s = stored_row nodes mid (
    subst (λ q. parent_found nodes q ≡ true) s.parent
      (found-parent nodes nodes low s.node h s.stored))

member-All :
    (P : String → Type 0) (x : String) (xs : List String) → All P xs → member x xs ≡ true → P x
member-All P x [] h m = cc
member-All P x (y ∷ xs) h m = elim (Bool-cases (y == x)) [
  | inl same ↦ subst P ((eq_iff y x).0 same) h.0
  | inr other ↦ member-All P x xs h.1 (rw other at m)
]

-- The nodes of the path are below the one that the query comes to.
above_path :
    (nodes : List Node) (low : String) (path : List String)
    → IsAcyclic nodes
    → All (λ x. Below nodes low x) path
    → member low path ≡ false
above_path nodes low path acyclic h = elim (Bool-cases (member low path)) [
  | inl again ↦ absurd (acyclic low (member-All (λ x. Below nodes low x) low path h again))
  | inr new ↦ new
]

climb_here :
    (fuel : ℕ) (nodes : List Node) (path : List String) (c : String) (n : Node)
    → n.id ≡ c
    → member n.id path ≡ false
    → member c (climb (suc fuel) nodes path (some n)) ≡ true
unfolding climb
climb_here fuel nodes path c n e new = rw (new, climb, e, eq_refl c)

climb_past :
    (fuel : ℕ) (nodes : List Node) (path : List String) (c p : String) (n m : Node)
    → n.parent_id ≡ some p
    → node_by_id p nodes ≡ some m
    → member n.id path ≡ false
    → member c (climb fuel nodes (n.id ∷ path) (some m)) ≡ true
    → member c (climb (suc fuel) nodes path (some n)) ≡ true
unfolding climb
climb_past fuel nodes path c p n m e found new h =
    let next : parent_row nodes n.parent_id ≡ some m = ap (parent_row nodes) e ∙ found in
    rw (new, climb, next) (ground (arith, h))

-- A chain from a row to `c` is climbed, given enough rounds.
abbrev Climbs : List Node → String → List String → Node → Type 0
Climbs nodes c path n =
    (d : ℕ) × ((fuel : ℕ) → d ≤ fuel → member c (climb fuel nodes path (some n)) ≡ true)

Climbs-past :
    (nodes : List Node) (path : List String) (c p : String) (n m : Node)
    → n.parent_id ≡ some p
    → node_by_id p nodes ≡ some m
    → member n.id path ≡ false
    → Climbs nodes c (n.id ∷ path) m
    → Climbs nodes c path n
Climbs-past nodes path c p n m e found new (d, h) = (suc d, go)
  where
    go : (fuel : ℕ) → suc d ≤ fuel → member c (climb fuel nodes path (some n)) ≡ true
    go zero le = absurd (omega arith)
    go (suc fuel) le = climb_past fuel nodes path c p n m e found new (h fuel (omega arith))

Climbs-here :
    (nodes : List Node) (path : List String) (c : String) (n : Node)
    → n.id ≡ c
    → member n.id path ≡ false
    → Climbs nodes c path n
Climbs-here nodes path c n e new = (1, go)
  where
    go : (fuel : ℕ) → 1 ≤ fuel → member c (climb fuel nodes path (some n)) ≡ true
    go zero le = absurd (omega arith)
    go (suc fuel) le = climb_here fuel nodes path c n e new

module _ (nodes : List Node) (c : String) (k : Node) (acyclic : IsAcyclic nodes)
    (forest : ParentsIn nodes nodes) (top : node_by_id c nodes ≡ some k) where
  Climbs-step :
      (low mid : String) (path : List String) (n m : Node) (s : IsChild nodes low mid)
      → All (λ x. Below nodes low x) path
      → node_by_id low nodes ≡ some n
      → node_by_id mid nodes ≡ some m
      → (All (λ x. Below nodes mid x) (n.id ∷ path) → Climbs nodes c (n.id ∷ path) m)
      → Climbs nodes c path n
  Climbs-step low mid path n m s h stored next rest =
      let same = (node_by_id-stored low nodes n stored).0 in
      let row : n ≡ s.node = cc (stored, s.stored) in
      Climbs-past nodes path c mid n m (ap (λ (x : Node). x.parent_id) row ∙ s.parent) next
        (ap (λ j. member j path) same ∙ above_path nodes low path acyclic h)
        (rest (
          subst (Below nodes mid) (sym same) (child s),
          All-mono (λ x b. Below-trans b (child s)) path h,
        ))

  climbs :
      (low : String) (path : List String) (n : Node)
      → Below nodes c low
      → All (λ x. Below nodes low x) path
      → node_by_id low nodes ≡ some n
      → Climbs nodes c path n
  climbs low path n (child s) h stored = Climbs-step low c path n k s h stored top (λ above.
      Climbs-here nodes (n.id ∷ path) c k (node_by_id-stored c nodes k top).0 (
        ap (λ j. member j (n.id ∷ path)) (node_by_id-stored c nodes k top).0
        ∙ above_path nodes c (n.id ∷ path) acyclic above))
  climbs low path n (further {mid = mid} s b) h stored =
      let (m, found) = stored_parent nodes low mid forest s in
      Climbs-step low mid path n m s h stored found
        (λ above. climbs mid (n.id ∷ path) m b above found)

-- In a table with stored parents and no cycle of parents, the recursive query for the ancestors of a
-- stored node finds, of the stored nodes, exactly that node and those to which a chain of parents
-- leads from it.
pub ancestor_ids_iff :
    (nodes : List Node) (i c : String) (n k : Node)
    → IsAcyclic nodes
    → ParentsIn nodes nodes
    → node_by_id i nodes ≡ some n
    → node_by_id c nodes ≡ some k
    → (member c (ancestor_ids nodes i) ≡ true) ↔ AtOrBelow nodes c i
unfolding ancestor_ids
ancestor_ids_iff nodes i c n k acyclic parents stored top = (
  λ h.
      member-All (λ x. AtOrBelow nodes x i) c (climb (length nodes) nodes [] (node_by_id i nodes))
        (climb-AtOrBelow (length nodes) nodes [] i (node_by_id i nodes) start) h,
  λ at. settled (elim at [
    | inl same ↦ Climbs-here nodes [] c n ((node_by_id-stored i nodes n stored).0 ∙ same) refl
    | inr b ↦ climbs nodes c k acyclic parents top i [] n b tt stored
  ]),
)
  where
    start :
        (m : Node)
        → node_by_id i nodes ≡ some m
        → (node_by_id m.id nodes ≡ some m) × AtOrBelow nodes m.id i
    start m e = (found_self nodes i m e, inl (sym (node_by_id-stored i nodes m e).0))

    settled : Climbs nodes c [] n → member c (ancestor_ids nodes i) ≡ true
    settled (d, h) =
        sym (
          ap (member c)
            (ap (climb (length nodes + d) nodes []) (sym stored) ∙ ancestors_settle d nodes i))
        ∙ h (length nodes + d) (omega arith)

-- In a forest a stored node is among the ancestors of another exactly when the other is among its
-- descendants.
pub ancestors-descendants :
    (nodes : List Node) (i c : String) (n k : Node)
    → DistinctNodes nodes
    → IsAcyclic nodes
    → ParentsIn nodes nodes
    → node_by_id i nodes ≡ some n
    → node_by_id c nodes ≡ some k
    → (member c (ancestor_ids nodes i) ≡ true) ↔ (member i (descendant_ids nodes c) ≡ true)
ancestors-descendants nodes i c n k d acyclic parents stored top =
    let up = ancestor_ids_iff nodes i c n k acyclic parents stored top in
    let down = descendant_ids_iff nodes c i k d acyclic top in
    (λ h. down.1 (up.0 h), λ h. up.1 (down.0 h))
