-- ===== src/Geography/Visits.antt =====
-- The visits of the recursive query of api/src/services/validators.ts for the descendants of a node.

use citynode_app.Prelude.{
  ℕ, zero, suc, String, ◌≡◌, inl, inr, refl, ap, subst, true, false, Option, none, some, List, [],
  ◌∷◌, arith, ◌==◌, eq_iff, ◌&&◌, not, Bool-cases, All, All-append,
}
use citynode_app.Geography.Types.{Node}
use citynode_app.Geography.Tree.{
  member, child_of, node_by_id, Visit, visit_children, next_level, levels, root_visit, visit_ids,
}
use citynode_app.Geography.Chains.{
  DistinctNodes, IsChild, AtOrBelow, IsChild-AtOrBelow, found_by_id,
}

-- A visit from the root `i`: its node is at or below every node of its path, and `i`.
pub record IsFrom (nodes : List Node) (i : String) (v : Visit) : Type 0 where
  pub up : All (λ x. AtOrBelow nodes x v.id) v.path
  pub root : AtOrBelow nodes i v.id

abbrev pub ComesFrom : List Node → String → List Visit → Type 0
ComesFrom nodes i level = All (IsFrom nodes i) level

pub child_of_lem : (p : String) (n : Node) → child_of p n ≡ true → n.parent_id ≡ some p
child_of_lem p n h = go n.parent_id h
  where
    go : (o : Option String) → (elim o [ none ↦ false | some q ↦ q == p ]) ≡ true → o ≡ some p
    go none h = cc
    go (some q) h = ap some ((eq_iff q p).0 h)

extended :
    (nodes : List Node) (low mid : String) (path : List String)
    → IsChild nodes low mid
    → All (λ x. AtOrBelow nodes x mid) path
    → All (λ x. AtOrBelow nodes x low) path
extended nodes low mid [] s h = tt
extended nodes low mid (x ∷ path) s h =
    (inr (IsChild-AtOrBelow s h.0), extended nodes low mid path s h.1)

pub child-IsFrom :
    (nodes : List Node) (i : String) (n : Node) (v : Visit)
    → IsChild nodes n.id v.id
    → IsFrom nodes i v
    → IsFrom nodes i (record { id = n.id; path = n.id ∷ v.path })
child-IsFrom nodes i n v s p = record {
  up = (inl refl, extended nodes n.id v.id v.path s p.up);
  root = inr (IsChild-AtOrBelow s p.root);
}

pub visit_children-ComesFrom :
    (all nodes : List Node) (i : String) (v : Visit)
    → All (λ (n : Node). node_by_id n.id all ≡ some n) nodes
    → IsFrom all i v
    → ComesFrom all i (visit_children nodes v)
unfolding visit_children
visit_children-ComesFrom all [] i v h p = tt
visit_children-ComesFrom all (n ∷ nodes) i v h p =
    elim (Bool-cases (child_of v.id n && not (member n.id v.path))) [
      | inl hit ↦ rw hit (
        child-IsFrom all i n v
            (record { node = n; stored = h.0; parent = child_of_lem v.id n (ground arith) }) p,
        visit_children-ComesFrom all nodes i v h.1 p,
      )
      | inr miss ↦ rw miss (visit_children-ComesFrom all nodes i v h.1 p)
    ]

pub next_level-ComesFrom :
    (nodes : List Node) (i : String) (level : List Visit)
    → DistinctNodes nodes
    → ComesFrom nodes i level
    → ComesFrom nodes i (next_level nodes level)
unfolding next_level
next_level-ComesFrom nodes i [] d p = tt
next_level-ComesFrom nodes i (v ∷ level) d p =
    All-append (IsFrom nodes i) (visit_children nodes v) (next_level nodes level)
      (visit_children-ComesFrom nodes nodes i v (found_by_id nodes d) p.0)
      (next_level-ComesFrom nodes i level d p.1)

pub levels-ComesFrom :
    (fuel : ℕ) (nodes : List Node) (i : String) (level : List Visit)
    → DistinctNodes nodes
    → ComesFrom nodes i level
    → ComesFrom nodes i (levels fuel nodes level)
unfolding levels
levels-ComesFrom zero nodes i level d p = tt
levels-ComesFrom (suc fuel) nodes i level d p =
    All-append (IsFrom nodes i) level (levels fuel nodes (next_level nodes level)) p (
      levels-ComesFrom fuel nodes i (next_level nodes level) d
        (next_level-ComesFrom nodes i level d p))

pub root-IsFrom : (nodes : List Node) (n : Node) → IsFrom nodes n.id (root_visit n)
root-IsFrom nodes n = record { up = (inl refl, tt); root = inl refl }

pub member-ComesFrom :
    (nodes : List Node) (i c : String) (visits : List Visit)
    → ComesFrom nodes i visits
    → member c (visit_ids visits) ≡ true
    → AtOrBelow nodes i c
member-ComesFrom nodes i c [] p h = cc
member-ComesFrom nodes i c (v ∷ visits) p h = elim (Bool-cases (v.id == c)) [
  | inl same ↦ subst (AtOrBelow nodes i) ((eq_iff v.id c).0 same) p.0.root
  | inr other ↦ member-ComesFrom nodes i c visits p.1 (rw other at h)
]
