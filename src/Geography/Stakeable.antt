-- ===== src/Geography/Stakeable.antt =====
-- `stakeableNodeIds` of api/src/services/validators.ts beside `resolveForStaking`.
use citynode_app.Prelude.{
  String, ◌≡◌, refl, ap, sym, ◌∙◌, inl, inr, Bool, true, false, none, some, List, [], ◌∷◌, map,
  eq_iff, ◌&&◌, ◌||◌, any, filter, arith, Bool-cases, Option-cases,
}
use citynode_app.Geography.Types.{Node, Validator, GeoDb, GeoResult, ok, err}
use citynode_app.Geography.Tree.{member, node_by_id, descendant_ids, ancestor_ids}
use citynode_app.Geography.Staking.{
  by_depth, default_then_depth, sort, insert_sorted, of_nodes, from_ancestors, from_descendants,
  own_or_ancestors, resolve_for_staking, has_related, stakeable_node_ids,
}

abbrev pub nonempty : List Validator → Bool
nonempty [] = false
nonempty (v ∷ vs) = true

-- The call succeeds with at least one validator.
abbrev pub finds_validators : GeoResult (List Validator × String) → Bool
finds_validators (ok r) = nonempty r.0
finds_validators (err e) = false

nonempty-insert :
    (le : Validator → Validator → Bool) (v : Validator) (vs : List Validator)
    → nonempty (insert_sorted le v vs) ≡ true
unfolding insert_sorted
nonempty-insert le v [] = refl
nonempty-insert le v (w ∷ ws) = elim (Bool-cases (le v w)) [ inl hit ↦ rw hit | inr miss ↦ rw miss ]

nonempty-sort :
    (le : Validator → Validator → Bool) (vs : List Validator) → nonempty (sort le vs) ≡ nonempty vs
unfolding sort
nonempty-sort le [] = refl
nonempty-sort le (v ∷ vs) = nonempty-insert le v (sort le vs)

nonempty-of_nodes :
    (ids : List String) (vs : List Validator)
    → nonempty (of_nodes ids vs) ≡ any (λ (v : Validator). member v.node_id ids) vs
unfolding of_nodes
nonempty-of_nodes ids [] = refl
nonempty-of_nodes ids (v ∷ vs) = elim (Bool-cases (member v.node_id ids)) [
  | inl hit ↦ rw hit
  | inr miss ↦ rw (miss, nonempty-of_nodes ids vs)
]

any-or :
    (xs ys : List String) (vs : List Validator)
    → any (λ (v : Validator). member v.node_id xs || member v.node_id ys) vs ≡ (
        any (λ (v : Validator). member v.node_id xs) vs
        || any (λ (v : Validator). member v.node_id ys) vs)
any-or xs ys [] = refl
any-or xs ys (v ∷ vs) = ground (arith, any-or xs ys vs)

related_cases :
    (node : String) (db : GeoDb) (own : List Validator)
    → nonempty (own_or_ancestors node db own).0 ≡ (
        nonempty own
        || any (λ (v : Validator). member v.node_id (ancestor_ids db.nodes node)) db.validators)
unfolding from_ancestors from_descendants
related_cases node db [] =
    let ids = ancestor_ids db.nodes node in
    nonempty-sort (by_depth ids) (of_nodes ids db.validators) ∙ nonempty-of_nodes ids db.validators
related_cases node db (v ∷ vs) =
    nonempty-sort (default_then_depth (descendant_ids db.nodes node)) (v ∷ vs)

member-filter :
    (i : String) (p : String → Bool) (xs : List String)
    → member i (filter p xs) ≡ (member i xs && p i)
member-filter i p [] = refl
member-filter i p (x ∷ xs) = ground (arith, member-filter i p xs, eq_iff x i, λ (e : x ≡ i). ap p e)

member_nodes :
    (i : String) (nodes : List Node)
    → member i (map (λ (n : Node). n.id) nodes)
      ≡ elim (node_by_id i nodes) [ none ↦ false | some n ↦ true ]
unfolding node_by_id
member_nodes i [] = refl
member_nodes i (n ∷ nodes) = ground (arith, member_nodes i nodes)

finds-related :
    (i : String) (db : GeoDb) (n : Node)
    → node_by_id i db.nodes ≡ some n
    → finds_validators (resolve_for_staking i db) ≡ has_related db i
unfolding resolve_for_staking has_related
finds-related i db n found =
    let own = of_nodes (descendant_ids db.nodes i) db.validators in
    rw found (
      related_cases i db own
      ∙ ap
          (λ b.
            b || any (λ (v : Validator). member v.node_id (ancestor_ids db.nodes i)) db.validators)
          (nonempty-of_nodes (descendant_ids db.nodes i) db.validators)
      ∙ sym (any-or (descendant_ids db.nodes i) (ancestor_ids db.nodes i) db.validators))

finds-missing :
    (i : String) (db : GeoDb)
    → node_by_id i db.nodes ≡ none
    → finds_validators (resolve_for_staking i db) ≡ false
unfolding resolve_for_staking
finds-missing i db missed = rw missed

-- For every list of identifiers and every node, the node is among the stakeable ones exactly when it
-- is in the list and resolving it for staking succeeds with at least one validator.
pub stakeable-resolves :
    (i : String) (ids : List String) (db : GeoDb)
    → member i (stakeable_node_ids ids db)
      ≡ (member i ids && finds_validators (resolve_for_staking i db))
unfolding stakeable_node_ids
stakeable-resolves i ids db =
    let filtered =
      member-filter i (λ j. member j ids && has_related db j) (map (λ (n : Node). n.id) db.nodes) in
    elim (Option-cases (node_by_id i db.nodes)) [
      | inl missed ↦
          ground
            (arith, filtered, rw missed at (member_nodes i db.nodes), finds-missing i db missed)
      | inr (n, found) ↦
          ground
            (arith, filtered, rw found at (member_nodes i db.nodes), finds-related i db n found)
    ]
