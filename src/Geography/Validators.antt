-- ===== src/Geography/Validators.antt =====
-- The operations of api/src/services/validators.ts. Each transaction returns its result with the new
-- tables, or an error, which rolls back.
use citynode_app.Prelude.{
  ℕ, String, Bool, true, false, Option, none, some, List, [], ◌∷◌, ◌++◌, if◌then◌else◌, ◌==◌, ◌&&◌,
  not, filter, any, find, length, leb,
}
use citynode_app.Geography.Types.{
  Validator, ValidatorRole, official, community, GeoDb, GeoEnv, GeoResult, ok, err, ◌>>=◌, found_or,
  Metadata, node_not_found, validator_not_found, validator_not_found_for_node, database,
}
use citynode_app.Geography.Tree.{node_by_id}

abbrev pub role_is : ValidatorRole → ValidatorRole → Bool
role_is official official = true
role_is community community = true
role_is _ _ = false

unfoldable pub validator_by_id : String → List Validator → Option Validator
validator_by_id i [] = none
validator_by_id i (v ∷ vs) = if v.id == i then some v else validator_by_id i vs

abbrev pub is_default_of : String → Validator → Bool
is_default_of node v = v.node_id == node && v.is_default

unfoldable pub default_count : String → List Validator → ℕ
default_count node vs = length (filter (is_default_of node) vs)

-- validators_one_default_per_node_idx: a table that breaks it is refused
unfoldable pub index_holds : List Validator → List Validator → Bool
index_holds all [] = true
index_holds all (v ∷ vs) = leb (default_count v.node_id all) 1 && index_holds all vs

unfoldable pub checked : List Validator → GeoResult (List Validator)
unfolding index_holds
checked vs = if index_holds vs vs then ok vs else err database

-- update … set is_default = false where …
unfoldable pub clear_defaults : (Validator → Bool) → ℕ → List Validator → List Validator
clear_defaults p now [] = []
clear_defaults p now (v ∷ vs) =
    (if p v then record v { is_default = false; updated_at = now } else v) ∷ clear_defaults p now vs

-- update … where id = …, of the one row of a primary key
unfoldable pub update_validator : String → (Validator → Validator) → List Validator → List Validator
update_validator i set [] = []
update_validator i set (v ∷ vs) = if v.id == i then set v ∷ vs else v ∷ update_validator i set vs

unfoldable pub insert_validator : Validator → List Validator → GeoResult (List Validator)
unfolding checked
insert_validator v vs =
    if any (λ (w : Validator). w.id == v.id) vs then err database else checked (vs ++ v ∷ [])

pub record ValidatorInput : Type 0 where
  pub node_id : String
  pub account_id : String
  pub network : Option String
  pub protocol : Option String
  pub role : Option ValidatorRole
  pub is_default : Option Bool
  pub metadata : Option Metadata

pub record ValidatorUpdateInput : Type 0 where
  pub account_id : Option String
  pub network : Option String
  pub protocol : Option String
  pub role : Option ValidatorRole
  pub is_default : Option Bool
  pub metadata : Option Metadata

-- `a ?? d`
abbrev pub default_to {ℓ} : {A : Type ℓ} → A → Option A → A
default_to d none = d
default_to d (some a) = a

abbrev pub is_true : Option Bool → Bool
is_true none = false
is_true (some b) = b

unfoldable pub new_validator : ValidatorInput → GeoEnv → Validator
new_validator input env = record {
  id = env.fresh_id;
  node_id = input.node_id;
  account_id = input.account_id;
  network = default_to "mainnet" input.network;
  protocol = default_to "near" input.protocol;
  role = default_to official input.role;
  is_default = default_to false input.is_default;
  metadata = default_to [] input.metadata;
  created_at = env.now;
  updated_at = env.now;
}

abbrev pub of_node : String → Validator → Bool
of_node node v = v.node_id == node

abbrev pub other_of_node : String → String → Validator → Bool
other_of_node node i v = v.node_id == node && not (v.id == i)

-- the clearing that precedes an insert
unfoldable pub cleared_for : ValidatorInput → ℕ → List Validator → List Validator
cleared_for input now vs =
    if is_true input.is_default then clear_defaults (of_node input.node_id) now vs else vs

unfoldable pub create : ValidatorInput → GeoEnv → GeoDb → GeoResult (Validator × GeoDb)
create input env db = do
  node ← found_or (node_by_id input.node_id db.nodes) node_not_found
  vs ← insert_validator (new_validator input env) (cleared_for input env.now db.validators)
  ok (new_validator input env, record db { validators = vs })

unfoldable pub patch_validator : ValidatorUpdateInput → ℕ → Validator → Validator
patch_validator input now v = record v {
  account_id = default_to v.account_id input.account_id;
  network = default_to v.network input.network;
  protocol = default_to v.protocol input.protocol;
  role = default_to v.role input.role;
  is_default = default_to v.is_default input.is_default;
  metadata = default_to v.metadata input.metadata;
  updated_at = now;
}

-- the clearing that precedes an update of `existing`
unfoldable pub cleared_around : Bool → Validator → ℕ → List Validator → List Validator
cleared_around wanted existing now vs =
    if wanted then clear_defaults (other_of_node existing.node_id existing.id) now vs else vs

unfoldable pub update :
    String → ValidatorUpdateInput → GeoEnv → GeoDb → GeoResult (Validator × GeoDb)
update i input env db = do
  existing ← found_or (validator_by_id i db.validators) validator_not_found
  let cleared = cleared_around (is_true input.is_default) existing env.now db.validators
  vs ← checked (update_validator i (patch_validator input env.now) cleared)
  row ← found_or (validator_by_id i vs) validator_not_found
  ok (row, record db { validators = vs })

abbrev pub make_default : ℕ → Validator → Validator
make_default now v = record v { is_default = true; updated_at = now }

-- the target is selected by its id and its node
abbrev pub target_of : String → Option Validator → Option Validator
target_of node none = none
target_of node (some v) = if v.node_id == node then some v else none

unfoldable pub set_default : String → String → GeoEnv → GeoDb → GeoResult (Validator × GeoDb)
set_default node i env db = do
  target ← found_or (target_of node (validator_by_id i db.validators)) validator_not_found_for_node
  let cleared = clear_defaults (other_of_node node i) env.now db.validators
  vs ← checked (update_validator i (make_default env.now) cleared)
  updated ← found_or (validator_by_id i vs) database
  ok (updated, record db { validators = vs })

unfoldable pub remove_validator : String → List Validator → List Validator
remove_validator i [] = []
remove_validator i (v ∷ vs) = if v.id == i then vs else v ∷ remove_validator i vs

-- true iff a row was deleted
unfoldable pub delete : String → GeoDb → Bool × GeoDb
unfolding remove_validator
delete i db = (
  any (λ (v : Validator). v.id == i) db.validators,
  record db { validators = remove_validator i db.validators },
)

pub record ValidatorListFilter : Type 0 where
  pub node_id : Option String
  pub role : Option ValidatorRole

unfoldable pub list_matches : ValidatorListFilter → Validator → Bool
list_matches input v =
    elim input.node_id [ none ↦ true | some n ↦ v.node_id == n ]
    && elim input.role [ none ↦ true | some r ↦ role_is v.role r ]

unfoldable pub list : ValidatorListFilter → GeoDb → List Validator
unfolding list_matches
list input db = filter (list_matches input) db.validators

unfoldable pub list_by_node : String → GeoDb → List Validator
list_by_node node db = filter (of_node node) db.validators

unfoldable pub resolve_by_account_id : String → GeoDb → Option Validator
resolve_by_account_id account db = find (λ (v : Validator). v.account_id == account) db.validators
