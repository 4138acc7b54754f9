-- ===== src/Geography/OneDefault.antt =====
-- Every node has at most one default validator: the create, update and set-default operations of
-- api/src/services/validators.ts clear the others first, so the unique index never refuses them.
use citynode_app.Geography.Defaults.{
  checked_lem, default_count-append, clear_node, clear_others_ne, clear_others_self,
  by_id-clear_others, default_count-update, IsTable, DistinctIds,
}
use citynode_app.Geography.Validators.{
  is_true, of_node, insert_validator, default_to, create, new_validator, cleared_for, set_default,
  other_of_node, clear_defaults, make_default, default_count, update_validator, target_of,
  validator_by_id, ValidatorInput,
}
use citynode_app.Prelude.{
  ℕ, String, ◌≡◌, ◌≢◌, refl, ap, ◌∙◌, inl, inr, Bool, false, Option, none, some, List, [], ◌∷◌,
  ◌++◌, arith, if◌then◌else◌, ◌==◌, eq_iff, eq_refl, ◌&&◌, any, Bool-cases,
}
use citynode_app.Geography.Types.{Node, Validator, GeoDb, GeoEnv, ok}
use citynode_app.Geography.Keeps.{
  update-DistinctIds, by_id-update, clear-DistinctIds, append-DistinctIds,
}
use citynode_app.Geography.Tree.{node_by_id}

-- The target found by `set_default` has the node and is found by its id alone.
target_of_lem :
    (node : String) (o : Option Validator) (v : Validator)
    → target_of node o ≡ some v
    → (o ≡ some v) × (v.node_id ≡ node)
target_of_lem node none v e = cc
target_of_lem node (some w) v e = ground (arith, eq_iff w.node_id node)

-- What `set_default` stores.
abbrev pub defaulted : String → String → ℕ → List Validator → List Validator
defaulted node i now vs =
    update_validator i (make_default now) (clear_defaults (other_of_node node i) now vs)

defaulted_count :
    (node i : String) (now : ℕ) (vs : List Validator) (v : Validator)
    → DistinctIds vs
    → validator_by_id i vs ≡ some v
    → v.node_id ≡ node
    → (n : String)
    → default_count n (defaulted node i now vs) ≡ (if n == node then 1 else default_count n vs)
defaulted_count node i now vs v d found same n =
    let cleared = clear_defaults (other_of_node node i) now vs in
    let moved =
      default_count-update n i (make_default now) cleared v
        (by_id-clear_others node i now vs ∙ found) in
    elim (Bool-cases (n == node)) [
      | inl hit ↦ ground (
        arith,
        moved,
        ap (λ m. default_count m cleared) ((eq_iff n node).0 hit),
        clear_others_self node i now vs v d found,
        (eq_iff n node).0 hit,
        eq_iff v.node_id n,
      )
      | inr miss ↦
          let ne : n ≢ node = λ e. cc (rw (e, eq_refl) at miss) in
          ground (arith, moved, clear_others_ne node i n now vs ne, eq_iff v.node_id n)
    ]

defaulted-IsTable :
    (node i : String) (now : ℕ) (vs : List Validator) (v : Validator)
    → IsTable vs
    → validator_by_id i vs ≡ some v
    → v.node_id ≡ node
    → IsTable (defaulted node i now vs)
defaulted-IsTable node i now vs v t found same = record {
  distinct =
      update-DistinctIds i (make_default now) (clear_defaults (other_of_node node i) now vs)
        (λ w. refl) (clear-DistinctIds (other_of_node node i) now vs t.distinct);
  one_default =
      λ n. ground (arith, defaulted_count node i now vs v t.distinct found same n, t.one_default n);
}

-- In a table with distinct identifiers and at most one default for each node, making a validator of
-- the node its default never meets the index: the result is that validator as the default, the node
-- has exactly one default, the other nodes have as many as before, and the table is one again. The
-- nodes and the tenants stay.
pub set_default_lem :
    (node i : String) (env : GeoEnv) (db : GeoDb) (v : Validator)
    → IsTable db.validators
    → target_of node (validator_by_id i db.validators) ≡ some v
    → (after : List Validator) × (set_default node i env db
        ≡ ok (make_default env.now v, record db { validators = after }))
      × (validator_by_id i after ≡ some (make_default env.now v))
      × ((n : String)
          → default_count n after ≡ (if n == node then 1 else default_count n db.validators))
      × IsTable after
unfolding set_default
set_default_lem node i env db v t e =
    let (found, same) = target_of_lem node (validator_by_id i db.validators) v e in
    let vs = defaulted node i env.now db.validators in
    let table = defaulted-IsTable node i env.now db.validators v t found same in
    let row =
      by_id-update i (make_default env.now)
        (clear_defaults (other_of_node node i) env.now db.validators) v (λ w. refl)
        (by_id-clear_others node i env.now db.validators ∙ found) in
    (
      vs,
      rw (e, checked_lem vs table.one_default, row),
      row,
      defaulted_count node i env.now db.validators v t.distinct found same,
      table,
    )

cleared_for_count :
    (input : ValidatorInput) (now : ℕ) (vs : List Validator) (n : String)
    → default_count n (cleared_for input now vs)
      ≡ (if n == input.node_id && is_true input.is_default then 0 else default_count n vs)
unfolding cleared_for
cleared_for_count input now vs n = ground (arith, clear_node input.node_id n now vs)

is_default-new : (o : Option Bool) → default_to false o ≡ is_true o
is_default-new none = refl
is_default-new (some b) = refl

created_count :
    (input : ValidatorInput) (env : GeoEnv) (vs : List Validator) (n : String)
    → default_count n (cleared_for input env.now vs ++ new_validator input env ∷ [])
      ≡ (if n == input.node_id && is_true input.is_default then 1 else default_count n vs)
unfolding new_validator
created_count input env vs n = ground (
  arith,
  default_count-append n (cleared_for input env.now vs) (new_validator input env),
  cleared_for_count input env.now vs n,
  is_default-new input.is_default,
  eq_iff n input.node_id,
  eq_iff input.node_id n,
)

any_id-clear :
    (i : String) (p : Validator → Bool) (now : ℕ) (vs : List Validator)
    → any (λ (w : Validator). w.id == i) (clear_defaults p now vs)
      ≡ any (λ (w : Validator). w.id == i) vs
unfolding clear_defaults
any_id-clear i p now [] = refl
any_id-clear i p now (v ∷ vs) = ground (arith, any_id-clear i p now vs)

any_id-cleared_for :
    (i : String) (input : ValidatorInput) (now : ℕ) (vs : List Validator)
    → any (λ (w : Validator). w.id == i) (cleared_for input now vs)
      ≡ any (λ (w : Validator). w.id == i) vs
unfolding cleared_for
any_id-cleared_for i input now vs = ground (arith, any_id-clear i (of_node input.node_id) now vs)

cleared_for-DistinctIds :
    (input : ValidatorInput) (now : ℕ) (vs : List Validator)
    → DistinctIds vs
    → DistinctIds (cleared_for input now vs)
unfolding cleared_for
cleared_for-DistinctIds input now vs d = elim (Bool-cases (is_true input.is_default)) [
  | inl hit ↦ rw hit (clear-DistinctIds (of_node input.node_id) now vs d)
  | inr miss ↦ rw miss d
]

-- In a table with distinct identifiers and at most one default for each node, creating a validator
-- under a fresh identifier for a stored node never meets the index: the row comes last, its node
-- has exactly one default when the row asks to be it and as many as before when not, the other nodes
-- have as many as before, and the table is one again.
pub create_lem :
    (input : ValidatorInput) (env : GeoEnv) (db : GeoDb) (node : Node)
    → IsTable db.validators
    → node_by_id input.node_id db.nodes ≡ some node
    → any (λ (w : Validator). w.id == env.fresh_id) db.validators ≡ false
    → (after : List Validator) × (create input env db
        ≡ ok (new_validator input env, record db { validators = after }))
      × (after ≡ cleared_for input env.now db.validators ++ new_validator input env ∷ [])
      × ((n : String)
          → default_count n after ≡ (
              if n == input.node_id && is_true input.is_default
              then 1
              else default_count n db.validators))
      × IsTable after
unfolding create insert_validator new_validator
create_lem input env db node t found fresh =
    let rows = cleared_for input env.now db.validators in
    let after = rows ++ new_validator input env ∷ [] in
    let unused = any_id-cleared_for env.fresh_id input env.now db.validators ∙ fresh in
    let counts = created_count input env db.validators in
    let table : IsTable after = record {
      distinct =
          append-DistinctIds rows (new_validator input env)
            (cleared_for-DistinctIds input env.now db.validators t.distinct) unused;
      one_default = λ n. ground (arith, counts n, t.one_default n);
    } in
    (after, rw (found, unused, checked_lem after table.one_default), refl, counts, table)
