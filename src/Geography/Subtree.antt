-- ===== src/Geography/Subtree.antt =====
-- The recursive query of api/src/services/validators.ts for the descendants of a node, beside the
-- chains of parents.
use Prim.Native.Nat.add
use mathlib.Core.Path.{subst₂}
use mathlib.Core.List.{Memᴰ}
use citynode_app.Prelude.{
  ℕ, zero, suc, ◌+◌, String, ◌≡◌, ◌↔◌, inl, inr, refl, sym, ap, ◌∙◌, subst, true, false, some, List,
  [], ◌∷◌, ◌++◌, arith, ◌==◌, eq_iff, eq_refl, ◌&&◌, not, length, Bool-cases, All,
}
use citynode_app.Geography.Types.{Node}
use citynode_app.Geography.Tree.{
  member, child_of, node_by_id, Visit, visit_children, next_level, levels, first_level, root_visit,
  visit_ids, descendant_ids,
}
use citynode_app.Geography.Fuel.{descendants_settle, node_by_id-stored}
use citynode_app.Geography.Chains.{
  DistinctNodes, IsChild, Below, child, further, AtOrBelow, IsChild-AtOrBelow, IsAcyclic,
}
use citynode_app.Geography.Visits.{
  IsFrom, ComesFrom, root-IsFrom, member-ComesFrom, levels-ComesFrom, next_level-ComesFrom,
}

mem-left {ℓ} : {A : Type ℓ} {x : A} {xs : List A} (ys : List A) → Memᴰ x xs → Memᴰ x (xs ++ ys)
mem-left ys (Memᴰ.head e) = Memᴰ.head e
mem-left ys (Memᴰ.tail m) = Memᴰ.tail (mem-left ys m)

mem-right {ℓ} : {A : Type ℓ} {x : A} (xs : List A) {ys : List A} → Memᴰ x ys → Memᴰ x (xs ++ ys)
mem-right [] m = m
mem-right (x ∷ xs) m = Memᴰ.tail (mem-right xs m)

All-mem {ℓ κ} : {A : Type ℓ} (P : A → Type κ) (x : A) (xs : List A) → All P xs → Memᴰ x xs → P x
All-mem P x [] h m = elim m [ ]
All-mem P x (y ∷ xs) h (Memᴰ.head e) = subst P (sym e) h.0
All-mem P x (y ∷ xs) h (Memᴰ.tail m) = All-mem P x xs h.1 m

-- The visit that a child of a visited node gives.
abbrev visit_below : Node → Visit → Visit
visit_below n v = record { id = n.id; path = n.id ∷ v.path }

mem-visit_children :
    (i : String) (nodes : List Node) (v : Visit) (n : Node)
    → node_by_id i nodes ≡ some n
    → n.parent_id ≡ some v.id
    → member n.id v.path ≡ false
    → Memᴰ (visit_below n v) (visit_children nodes v)
unfolding visit_children node_by_id
mem-visit_children i [] v n e p new = cc
mem-visit_children i (m ∷ nodes) v n e p new = elim (Bool-cases (m.id == i)) [
  | inl hit ↦
      let same : m ≡ n = cc (rw hit at e) in rw (same, p, eq_refl v.id, new) (Memᴰ.head refl)
  | inr miss ↦
      let rest = mem-visit_children i nodes v n (rw miss at e) p new in
      elim (Bool-cases (child_of v.id m && not (member m.id v.path))) [
        | inl more ↦ rw more (Memᴰ.tail rest)
        | inr none_more ↦ rw none_more rest
      ]
]

mem-next_level :
    (nodes : List Node) (v w : Visit) (level : List Visit)
    → Memᴰ v level
    → Memᴰ w (visit_children nodes v)
    → Memᴰ w (next_level nodes level)
unfolding next_level
mem-next_level nodes v w [] h m = elim h [ ]
mem-next_level nodes v w (u ∷ level) (Memᴰ.head e) m =
    mem-left (next_level nodes level) (subst (λ x. Memᴰ w (visit_children nodes x)) e m)
mem-next_level nodes v w (u ∷ level) (Memᴰ.tail h) m =
    mem-right (visit_children nodes u) (mem-next_level nodes v w level h m)

level_at : ℕ → List Node → List Visit → List Visit
level_at zero nodes level = level
level_at (suc d) nodes level = next_level nodes (level_at d nodes level)

level_at-next_level :
    (d : ℕ) (nodes : List Node) (level : List Visit)
    → level_at d nodes (next_level nodes level) ≡ next_level nodes (level_at d nodes level)
unfolding level_at
level_at-next_level zero nodes level = refl
level_at-next_level (suc d) nodes level = ap (next_level nodes) (level_at-next_level d nodes level)

mem-levels :
    (d more : ℕ) (nodes : List Node) (v : Visit) (level : List Visit)
    → Memᴰ v (level_at d nodes level)
    → Memᴰ v (levels (suc d + more) nodes level)
unfolding levels level_at
mem-levels zero more nodes v level m = rw (add.suc, levels) (mem-left _ m)
mem-levels (suc d) more nodes v level m =
    rw (add.suc, levels)
      (mem-right level (
        mem-levels d more nodes v (next_level nodes level)
          (rw (level_at-next_level d nodes level) m)))

level_at-ComesFrom :
    (d : ℕ) (nodes : List Node) (i : String) (level : List Visit)
    → DistinctNodes nodes
    → ComesFrom nodes i level
    → ComesFrom nodes i (level_at d nodes level)
unfolding level_at
level_at-ComesFrom zero nodes i level d p = p
level_at-ComesFrom (suc k) nodes i level d p =
    next_level-ComesFrom nodes i (level_at k nodes level) d (level_at-ComesFrom k nodes i level d p)

member-up :
    (nodes : List Node) (x low : String) (path : List String)
    → All (λ y. AtOrBelow nodes y low) path
    → member x path ≡ true
    → AtOrBelow nodes x low
member-up nodes x low [] h m = cc
member-up nodes x low (y ∷ path) h m = elim (Bool-cases (y == x)) [
  | inl same ↦ subst (λ z. AtOrBelow nodes z low) ((eq_iff y x).0 same) h.0
  | inr other ↦ member-up nodes x low path h.1 (rw other at m)
]

-- Where the query has come to a node.
record IsVisited (nodes : List Node) (i c : String) : Type 0 where
  depth : ℕ
  visit : Visit
  at_depth : Memᴰ visit (level_at depth nodes (first_level (node_by_id i nodes)))
  visits : visit.id ≡ c

member-visit_ids :
    (v : Visit) (visits : List Visit) → Memᴰ v visits → member v.id (visit_ids visits) ≡ true
member-visit_ids v [] m = elim m [ ]
member-visit_ids v (w ∷ visits) (Memᴰ.head e) = rw (e, eq_refl w.id)
member-visit_ids v (w ∷ visits) (Memᴰ.tail m) = ground (arith, member-visit_ids v visits m)

module _ (nodes : List Node) (i : String) (n : Node) (distinct : DistinctNodes nodes)
    (stored : node_by_id i nodes ≡ some n) where
  first-ComesFrom : ComesFrom nodes i (first_level (node_by_id i nodes))
  first-ComesFrom =
      let same = (node_by_id-stored i nodes n stored).0 in
      rw stored (subst (λ j. IsFrom nodes j (root_visit n)) same (root-IsFrom nodes n), tt)

  IsVisited-child :
      (low mid : String)
      → IsAcyclic nodes
      → IsChild nodes low mid
      → IsVisited nodes i mid
      → IsVisited nodes i low
  unfolding level_at
  IsVisited-child low mid acyclic s at = record {
    depth = suc at.depth;
    visit = visit_below s.node at.visit;
    at_depth =
        mem-next_level nodes at.visit (visit_below s.node at.visit)
          (level_at at.depth nodes (first_level (node_by_id i nodes))) at.at_depth
          (mem-visit_children low nodes at.visit s.node s.stored (rw at.visits s.parent) new);
    visits = id;
  }
    where
      id : s.node.id ≡ low
      id = (node_by_id-stored low nodes s.node s.stored).0

      visited : IsFrom nodes i at.visit
      visited =
          All-mem (IsFrom nodes i) at.visit _
            (level_at-ComesFrom at.depth nodes i _ distinct first-ComesFrom) at.at_depth

      new : member s.node.id at.visit.path ≡ false
      new = elim (Bool-cases (member s.node.id at.visit.path)) [
        | inr fresh ↦ fresh
        | inl again ↦ absurd (
            acyclic low (
              IsChild-AtOrBelow s (
                subst₂ (AtOrBelow nodes) id at.visits
                  (member-up nodes s.node.id at.visit.id at.visit.path visited.up again))))
      ]

  IsVisited-Below : (c : String) → IsAcyclic nodes → Below nodes i c → IsVisited nodes i c
  unfolding level_at
  IsVisited-Below c acyclic (child s) = IsVisited-child c i acyclic s (record {
    depth = 0;
    visit = root_visit n;
    at_depth = rw stored (Memᴰ.head refl);
    visits = (node_by_id-stored i nodes n stored).0;
  })
  IsVisited-Below c acyclic (further {mid = mid} s p) =
      IsVisited-child c mid acyclic s (IsVisited-Below mid acyclic p)

  visited-member : (c : String) → IsVisited nodes i c → member c (descendant_ids nodes i) ≡ true
  visited-member c at =
      let first = first_level (node_by_id i nodes) in
      let fuel : suc at.depth + length nodes ≡ length nodes + suc at.depth = omega arith in
      let found : member c (visit_ids (levels (suc at.depth + length nodes) nodes first)) ≡ true =
        subst (λ x. member x (visit_ids (levels (suc at.depth + length nodes) nodes first)) ≡ true)
          at.visits
          (member-visit_ids at.visit _
            (mem-levels at.depth (length nodes) nodes at.visit first at.at_depth)) in
      sym (
        ap (member c) (
          ap (λ f. visit_ids (levels f nodes first)) fuel
          ∙ descendants_settle (suc at.depth) nodes i))
      ∙ found

  root_member : member i (descendant_ids nodes i) ≡ true
  unfolding level_at
  root_member = visited-member i (record {
    depth = 0;
    visit = root_visit n;
    at_depth = rw stored (Memᴰ.head refl);
    visits = (node_by_id-stored i nodes n stored).0;
  })

-- In a table with distinct identifiers and no cycle of parents, the recursive query for the
-- descendants of a stored node finds exactly that node and the nodes from which a chain of parents
-- leads to it.
pub descendant_ids_iff :
    (nodes : List Node) (i c : String) (n : Node)
    → DistinctNodes nodes
    → IsAcyclic nodes
    → node_by_id i nodes ≡ some n
    → (member c (descendant_ids nodes i) ≡ true) ↔ AtOrBelow nodes i c
unfolding descendant_ids
descendant_ids_iff nodes i c n d acyclic stored = (
  member-ComesFrom nodes i c _ (
      levels-ComesFrom (length nodes) nodes i (first_level (node_by_id i nodes)) d
        (first-ComesFrom nodes i n d stored)),
  λ at. elim at [
    | inl same ↦ rw same (root_member nodes i n d stored)
    | inr below ↦
        visited-member nodes i n d stored c (IsVisited-Below nodes i n d stored c acyclic below)
  ],
)
