-- ===== src/Geography/Fuel.antt =====
-- How many rounds the recursive queries of api/src/services/validators.ts and nodes.ts need.
use Prim.Native.Nat.add
use native.Mathlib.Nat.{zero-add}
use citynode_app.Prelude.{
  ℕ, zero, suc, ◌+◌, ◌≤◌, ◌<◌, String, ◌≡◌, refl, ap, inl, inr, true, false, Option, none, some,
  List, [], ◌∷◌, ◌++◌, arith, if◌then◌else◌, ◌==◌, eq_iff, eq_refl, ◌&&◌, not, map, length,
  Bool-cases, Option-cases, All, All-append,
}
use citynode_app.Geography.Types.{Node}
use citynode_app.Geography.Tree.{
  member, child_of, node_by_id, Visit, visit_children, next_level, levels, first_level, root_visit,
  visit_ids, descendant_ids, climb, ancestor_ids,
}

abbrev pub node_ids : List Node → List String
node_ids nodes = map (λ (n : Node). n.id) nodes

length-node_ids : (nodes : List Node) → length (node_ids nodes) ≡ length nodes
length-node_ids [] = refl
length-node_ids (n ∷ nodes) = omega (arith, length-node_ids nodes)

-- A list of stored identifiers, none twice.
abbrev pub IsPath : List String → List String → Type 0
IsPath ids [] = Unit
IsPath ids (x ∷ path) = (member x path ≡ false) × (member x ids ≡ true) × IsPath ids path

remove_first : String → List String → List String
remove_first x [] = []
remove_first x (y ∷ ys) = if y == x then ys else y ∷ remove_first x ys

length-remove_first :
    (x : String) (ys : List String)
    → member x ys ≡ true
    → length ys ≡ suc (length (remove_first x ys))
unfolding remove_first
length-remove_first x [] h = cc
length-remove_first x (y ∷ ys) h = ground (arith, length-remove_first x ys)

member-remove_first :
    (x z : String) (ys : List String)
    → member z ys ≡ true
    → (x == z) ≡ false
    → member z (remove_first x ys) ≡ true
unfolding remove_first
member-remove_first x z [] h ne = cc
member-remove_first x z (y ∷ ys) h ne =
    ground (arith, member-remove_first x z ys, eq_iff y x, eq_iff y z, eq_iff x z)

IsPath-remove_first :
    (x : String) (ids path : List String)
    → member x path ≡ false
    → IsPath ids path
    → IsPath (remove_first x ids) path
IsPath-remove_first x ids [] m p = tt
IsPath-remove_first x ids (z ∷ path) m p = (
  p.0,
  member-remove_first x z ids p.1 (ground (arith, eq_iff x z, eq_iff z x)),
  IsPath-remove_first x ids path (ground arith) p.2,
)

-- A path is no longer than the table.
pub IsPath-length-le : (ids path : List String) → IsPath ids path → length path ≤ length ids
IsPath-length-le ids [] p = omega arith
IsPath-length-le ids (x ∷ path) p = omega (
  arith,
  length-remove_first x ids p.1,
  IsPath-length-le (remove_first x ids) path (IsPath-remove_first x ids path p.0 p.2),
)

-- What a level of the descendants holds: the path of a visit begins at its node.
pub record IsVisit (nodes : List Node) (depth : ℕ) (v : Visit) : Type 0 where
  pub path : IsPath (node_ids nodes) v.path
  pub size : length v.path ≡ depth

abbrev pub IsLevel : List Node → ℕ → List Visit → Type 0
IsLevel nodes depth level = All (IsVisit nodes depth) level

visit_children-IsLevel :
    (all nodes : List Node) (depth : ℕ) (v : Visit)
    → All (λ (n : Node). member n.id (node_ids all) ≡ true) nodes
    → IsVisit all depth v
    → IsLevel all (suc depth) (visit_children nodes v)
unfolding visit_children
visit_children-IsLevel all [] depth v h p = tt
visit_children-IsLevel all (n ∷ nodes) depth v h p =
    elim (Bool-cases (child_of v.id n && not (member n.id v.path))) [
      | inl hit ↦ rw hit (
        record { path = (ground arith, h.0, p.path); size = omega (arith, p.size) },
        visit_children-IsLevel all nodes depth v h.1 p,
      )
      | inr miss ↦ rw miss (visit_children-IsLevel all nodes depth v h.1 p)
    ]

next_level-IsLevel :
    (nodes : List Node) (depth : ℕ) (level : List Visit)
    → All (λ (n : Node). member n.id (node_ids nodes) ≡ true) nodes
    → IsLevel nodes depth level
    → IsLevel nodes (suc depth) (next_level nodes level)
unfolding next_level
next_level-IsLevel nodes depth [] h p = tt
next_level-IsLevel nodes depth (v ∷ level) h p =
    All-append (IsVisit nodes (suc depth)) (visit_children nodes v) (next_level nodes level)
      (visit_children-IsLevel nodes nodes depth v h p.0)
      (next_level-IsLevel nodes depth level h p.1)

levels_nil : (fuel : ℕ) (nodes : List Node) → levels fuel nodes [] ≡ []
unfolding levels next_level
levels_nil zero nodes = refl
levels_nil (suc fuel) nodes = levels_nil fuel nodes

-- A level deeper than the table is empty.
level_ends :
    (nodes : List Node) (depth : ℕ) (level : List Visit)
    → IsLevel nodes depth level
    → length nodes < depth
    → level ≡ []
level_ends nodes depth [] p h = refl
level_ends nodes depth (v ∷ level) p h = absurd (
    omega
      (arith, IsPath-length-le (node_ids nodes) v.path p.0.path, p.0.size, length-node_ids nodes))

levels_more :
    (fuel more depth : ℕ) (nodes : List Node) (level : List Visit)
    → All (λ (n : Node). member n.id (node_ids nodes) ≡ true) nodes
    → IsLevel nodes depth level
    → length nodes < depth + fuel
    → levels (fuel + more) nodes level ≡ levels fuel nodes level
unfolding levels
levels_more zero more depth nodes level h p enough =
    rw (level_ends nodes depth level p (omega arith), levels_nil (zero + more) nodes)
levels_more (suc fuel) more depth nodes level h p enough =
    rw (add.suc, levels)
      (ap (λ r. level ++ r)
        (levels_more fuel more (suc depth) nodes (next_level nodes level) h
          (next_level-IsLevel nodes depth level h p) (omega arith)))

stored_within :
    (all nodes : List Node)
    → All (λ (n : Node). member n.id (node_ids all) ≡ true) nodes
    → (new : Node) → All (λ (n : Node). member n.id (node_ids (new ∷ all)) ≡ true) nodes
stored_within all [] h new = tt
stored_within all (n ∷ nodes) h new = (ground (arith, h.0), stored_within all nodes h.1 new)

pub stored_ids : (nodes : List Node) → All (λ (n : Node). member n.id (node_ids nodes) ≡ true) nodes
stored_ids [] = tt
stored_ids (n ∷ nodes) =
    (ground (arith, eq_refl n.id), stored_within nodes nodes (stored_ids nodes) n)

pub node_by_id-stored :
    (i : String) (nodes : List Node) (n : Node)
    → node_by_id i nodes ≡ some n
    → (n.id ≡ i) × (member i (node_ids nodes) ≡ true)
unfolding node_by_id
node_by_id-stored i [] n e = cc
node_by_id-stored i (m ∷ nodes) n e = ground (arith, eq_iff m.id i, node_by_id-stored i nodes n)

-- The recursive query for the descendants of a node, run for more rounds than there are nodes, finds
-- what it finds in that many rounds.
pub descendants_settle :
    (more : ℕ) (nodes : List Node) (i : String)
    → visit_ids (levels (length nodes + more) nodes (first_level (node_by_id i nodes)))
      ≡ descendant_ids nodes i
unfolding descendant_ids
descendants_settle more nodes i = elim (Option-cases (node_by_id i nodes)) [
  | inl missing ↦
      rw (missing, levels_nil (length nodes + more) nodes, levels_nil (length nodes) nodes)
  | inr (n, found) ↦ rw found (
      ap visit_ids (
        levels_more (length nodes) more 1 nodes (root_visit n ∷ []) (stored_ids nodes)
          (
            root_IsVisit n (
                rw ((node_by_id-stored i nodes n found).0) ((node_by_id-stored i nodes n found).1)),
            tt,
          )
          (omega arith)))
]
  where
    root_IsVisit : (n : Node) → member n.id (node_ids nodes) ≡ true → IsVisit nodes 1 (root_visit n)
    root_IsVisit n h = record { path = (refl, h, tt); size = refl }

climb_more :
    (fuel more : ℕ) (nodes : List Node) (path : List String) (o : Option Node)
    → IsPath (node_ids nodes) path
    → ((n : Node) → o ≡ some n → member n.id (node_ids nodes) ≡ true)
    → length nodes ≤ length path + fuel
    → climb (fuel + more) nodes path o ≡ climb fuel nodes path o
unfolding climb
climb_more zero zero nodes path o p h enough = refl
climb_more zero (suc more) nodes path none p h enough = rw zero-add
climb_more zero (suc more) nodes path (some n) p h enough = elim (Bool-cases (member n.id path)) [
  | inl again ↦ rw (zero-add, climb, again)
  | inr new ↦ absurd (
      omega (
        arith,
        IsPath-length-le (node_ids nodes) (n.id ∷ path) (new, h n refl, p),
        length-node_ids nodes,
      ))
]
climb_more (suc fuel) more nodes path none p h enough = rw (add.suc, climb)
climb_more (suc fuel) more nodes path (some n) p h enough = elim (Bool-cases (member n.id path)) [
  | inl again ↦ rw (add.suc, climb, again)
  | inr new ↦
      rw (add.suc, climb, new)
        (ap (λ r. n.id ∷ r)
          (climb_more fuel more nodes (n.id ∷ path)
            (elim n.parent_id [ none ↦ none | some q ↦ node_by_id q nodes ]) (new, h n refl, p)
            (λ m e. parent_stored n.parent_id m e) (omega arith)))
]
  where
    parent_stored :
        (q : Option String) (m : Node)
        → ◌≡◌ {A = Option Node} (elim q [ none ↦ none | some r ↦ node_by_id r nodes ]) (some m)
        → member m.id (node_ids nodes) ≡ true
    parent_stored none m e = cc
    parent_stored (some r) m e =
        let (same, stored) = node_by_id-stored r nodes m e in rw same stored

-- The recursive query for the ancestors, likewise.
pub ancestors_settle :
    (more : ℕ) (nodes : List Node) (i : String)
    → climb (length nodes + more) nodes [] (node_by_id i nodes) ≡ ancestor_ids nodes i
unfolding ancestor_ids
ancestors_settle more nodes i =
    climb_more (length nodes) more nodes [] (node_by_id i nodes) tt
      (λ n e. let (same, stored) = node_by_id-stored i nodes n e in rw same stored) (omega arith)
