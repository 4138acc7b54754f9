-- ===== src/Geography/Tests.antt =====
-- A small geography: the theorems at concrete inputs.
use citynode_app.Prelude.{
  String, map, ◌↔◌, ◌≡◌, refl, sym, ap, Option, Bool-cases, inl, inr, eq_iff, true, false, none,
  some, List, [], ◌∷◌, ◌++◌, if◌then◌else◌, ◌==◌, ◌&&◌, not, filter, length, arith,
}
use citynode_app.Geography.Types.{Node, Validator, official, GeoDb, GeoEnv, ok}
use citynode_app.Geography.Tree.{node_by_id, member, descendant_ids, ancestor_ids}
use citynode_app.Geography.Validators.{
  ValidatorInput, ValidatorUpdateInput, validator_by_id, default_count, create, update, set_default,
  new_validator, patch_validator, make_default, cleared_for, is_true,
}
use citynode_app.Geography.Defaults.{IsTable}
use citynode_app.Geography.OneDefault.{set_default_lem, create_lem}
use citynode_app.Geography.UpdateKeeps.{update_lem}
use citynode_app.Geography.Staking.{stakeable_node_ids, resolve_for_staking, of_nodes}
use citynode_app.Geography.Resolution.{Selection, resolve_for_staking_lem}
use citynode_app.Geography.Stakeable.{finds_validators, stakeable-resolves}
use citynode_app.Geography.Nodes.{slugs_unique, is_stored, delete_node, without_node}
use citynode_app.Geography.References.{IsReferential, delete_node-IsReferential}
use citynode_app.Geography.NodeQueries.{resolve_by_slug, has_slug, is_root}
use citynode_app.Geography.Resolve.{resolve_by_slug_lem, Explains}
use citynode_app.Geography.Nodes.{new_node, NodeSpawnInput, NodeUpdateInput}
use citynode_app.Geography.Chains.{IsChild, Below, child, further, AtOrBelow, IsAcyclic}
use citynode_app.Geography.Forest.{IsForest}
use citynode_app.Geography.Growth.{
  NodeCall, spawn_call, update_call, delete_call, run_call, run_calls, run_calls-IsForest,
}
use citynode_app.Geography.Subtree.{descendant_ids_iff}
use citynode_app.Geography.Ancestors.{ancestors-descendants}

abbrev city : Node
city = record {
  id = "city";
  slug = "lagos";
  name = "Lagos";
  parent_id = none;
  tenant_id = none;
  metadata = [];
  created_at = 1;
  updated_at = 1;
}

abbrev district : Node
district = record {
  id = "district";
  slug = "ikeja";
  name = "Ikeja";
  parent_id = some "city";
  tenant_id = none;
  metadata = [];
  created_at = 1;
  updated_at = 1;
}

abbrev first : Validator
first = record {
  id = "v1";
  node_id = "city";
  account_id = "one.near";
  network = "mainnet";
  protocol = "near";
  role = official;
  is_default = true;
  metadata = [];
  created_at = 1;
  updated_at = 1;
}

abbrev second : Validator
second = record first { id = "v2"; account_id = "two.near"; is_default = false }

abbrev geography : GeoDb
geography = record { tenants = []; nodes = city ∷ district ∷ []; validators = first ∷ second ∷ [] }

abbrev env : GeoEnv
env = record { now = 9; fresh_id = "v3" }

abbrev wanted : ValidatorInput
wanted = record {
  node_id = "city";
  account_id = "three.near";
  network = none;
  protocol = none;
  role = none;
  is_default = some true;
  metadata = none;
}

abbrev promotion : ValidatorUpdateInput
promotion = record {
  account_id = none;
  network = none;
  protocol = none;
  role = none;
  is_default = some true;
  metadata = none;
}

geography-IsTable : IsTable geography.validators
unfolding validator_by_id default_count
geography-IsTable = record { distinct = (refl, (refl, tt)); one_default = λ n. ground arith }

set_default_example :
    (after : List Validator) × (set_default "city" "v2" env geography
      ≡ ok (make_default 9 second, record geography { validators = after }))
    × (validator_by_id "v2" after ≡ some (make_default 9 second))
    × ((n : String)
        → default_count n after ≡ (if n == "city" then 1 else default_count n geography.validators))
    × IsTable after
unfolding validator_by_id
set_default_example = set_default_lem "city" "v2" env geography second geography-IsTable refl

create_example :
    (after : List Validator) × (create wanted env geography
      ≡ ok (new_validator wanted env, record geography { validators = after }))
    × (after ≡ cleared_for wanted 9 geography.validators ++ new_validator wanted env ∷ [])
    × ((n : String)
        → default_count n after ≡ (
            if n == "city" && is_true (some true) then 1 else default_count n geography.validators))
    × IsTable after
unfolding node_by_id
create_example = create_lem wanted env geography city geography-IsTable refl refl

update_example :
    (after : List Validator) × (update "v2" promotion env geography
      ≡ ok (patch_validator promotion 9 second, record geography { validators = after }))
    × (validator_by_id "v2" after ≡ some (patch_validator promotion 9 second))
    × IsTable after
unfolding validator_by_id
update_example = update_lem "v2" promotion env geography second geography-IsTable refl

stakeable_example :
    member "district" (stakeable_node_ids ("district" ∷ []) geography)
    ≡ (true && finds_validators (resolve_for_staking "district" geography))
stakeable_example = stakeable-resolves "district" ("district" ∷ []) geography

resolve_example :
    Explains "ikeja"
      (resolve_by_slug "ikeja" none geography)
      (length (filter (has_slug "ikeja") geography.nodes))
      (length (filter is_root (filter (has_slug "ikeja") geography.nodes)))
resolve_example = resolve_by_slug_lem "ikeja" geography

geography-IsReferential : IsReferential geography
geography-IsReferential = record { parents = (refl, (refl, tt)); owners = (refl, (refl, tt)) }

delete_example :
    (after : GeoDb) × (delete_node "city" geography ≡ ok (true, after))
    × ((j : String) → is_stored after.nodes j ≡ (is_stored geography.nodes j && not (j == "city")))
    × IsReferential after
unfolding without_node slugs_unique
delete_example = delete_node-IsReferential "city" geography geography-IsReferential refl refl

abbrev parent_in : Option Node → Option String
parent_in none = none
parent_in (some n) = n.parent_id

-- The only step from a child to its parent leads from the district to the city.
step_of_row :
    (a b : String) (n : Node)
    → node_by_id a geography.nodes ≡ some n
    → n.parent_id ≡ some b
    → (a ≡ "district") × (b ≡ "city")
unfolding node_by_id
step_of_row a b n h p = elim (Bool-cases ("city" == a)) [
  | inl top ↦ cc (ap parent_in (rw top at h), p)
  | inr other ↦ elim (Bool-cases ("district" == a)) [
    | inl low ↦ (sym ((eq_iff "district" a).0 low), cc (ap parent_in (rw (other, low) at h), p))
    | inr neither ↦ cc (rw (other, neither) at h)
  ]
]

district_step : (a b : String) → IsChild geography.nodes a b → (a ≡ "district") × (b ≡ "city")
district_step a b s = step_of_row a b s.node s.stored s.parent

district-Below :
    (top low : String) → Below geography.nodes top low → (low ≡ "district") × (top ≡ "city")
district-Below top low (child s) = district_step low top s
district-Below top low (further {mid = mid} s p) =
    ((district_step low mid s).0, (district-Below top mid p).1)

geography-IsAcyclic : IsAcyclic geography.nodes
geography-IsAcyclic i b = let (low, top) = district-Below i i b in cc (low, top)

geography-IsForest : IsForest geography.nodes
unfolding node_by_id
geography-IsForest = record {
  distinct = (refl, (refl, tt));
  parents = (refl, (refl, tt));
  acyclic = geography-IsAcyclic;
}

abbrev port : NodeSpawnInput
port = record {
  kind = some "region";
  slug = "apapa";
  name = "Apapa";
  parent_id = some "district";
  tenant_id = none;
  metadata = none;
}

abbrev moved_to : Option String → NodeUpdateInput
moved_to p = record { kind = none; slug = none; name = none; parent_id = some p; metadata = none }

-- A spawn, a move below itself, which fails, a move to the top, and a deletion.
abbrev writes : List (NodeCall × GeoEnv)
writes =
    (spawn_call port, env)
    ∷ (update_call "city" (moved_to (some "v3")), env)
    ∷ (update_call "district" (moved_to none), env)
    ∷ (delete_call "city", env)
    ∷ []

run_calls_example : IsForest (run_calls writes geography).nodes
run_calls_example = run_calls-IsForest writes geography geography-IsForest

descendants_example :
    (member "district" (descendant_ids geography.nodes "city") ≡ true)
    ↔ AtOrBelow geography.nodes "city" "district"
unfolding node_by_id
descendants_example =
    descendant_ids_iff geography.nodes "city" "district" city geography-IsForest.distinct
      geography-IsAcyclic refl

ancestors_example :
    (member "city" (ancestor_ids geography.nodes "district") ≡ true)
    ↔ (member "district" (descendant_ids geography.nodes "city") ≡ true)
unfolding node_by_id
ancestors_example =
    ancestors-descendants geography.nodes "district" "city" district city
      geography-IsForest.distinct geography-IsAcyclic geography-IsForest.parents refl refl

writes_result : map (λ (n : Node). n.id) (run_calls writes geography).nodes ≡ "district" ∷ "v3" ∷ []
unfolding run_calls run_call new_node
writes_result = refl

resolve_for_staking_example :
    (ordered : List Validator) × (source : String) × (resolve_for_staking "district" geography
      ≡ ok (ordered, source))
    × Selection "district"
        (of_nodes (descendant_ids geography.nodes "district") geography.validators)
        (of_nodes (ancestor_ids geography.nodes "district") geography.validators)
        geography
        ordered
        source
unfolding node_by_id
resolve_for_staking_example = resolve_for_staking_lem "district" geography district refl
