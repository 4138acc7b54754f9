-- ===== src/Geography/UpdateKeeps.antt =====
-- The update operation of api/src/services/validators.ts keeps one default validator per node.
use citynode_app.Prelude.{
  ℕ, ◌≤◌, String, ◌≡◌, ◌≢◌, refl, ap, ◌∙◌, inl, inr, Bool, true, false, Option, none, some, List,
  [], ◌∷◌, arith, ◌==◌, eq_iff, eq_refl, ◌&&◌, not, Bool-cases, max, subst,
}
use citynode_app.Geography.Types.{Validator, GeoDb, GeoEnv, ok}
use citynode_app.Geography.Validators.{
  ValidatorUpdateInput, update, validator_by_id, update_validator, clear_defaults, cleared_around,
  patch_validator, default_count, is_true, other_of_node, default_to,
}
use citynode_app.Geography.Defaults.{
  IsTable, DistinctIds, weight, default_count-update, clear_others_ne, clear_others_self,
  by_id-clear_others, checked_lem,
}
use citynode_app.Geography.Keeps.{update-DistinctIds, by_id-update, clear-DistinctIds}

by_id_id :
    (i : String) (vs : List Validator) (v : Validator) → validator_by_id i vs ≡ some v → v.id ≡ i
unfolding validator_by_id
by_id_id i [] v e = cc
by_id_id i (w ∷ vs) v e = ground (arith, eq_iff w.id i, by_id_id i vs v)

not_wanted : (b : Bool) (o : Option Bool) → is_true o ≡ false → (default_to b o && not b) ≡ false
not_wanted true none e = refl
not_wanted false none e = refl
not_wanted true (some c) e = ground arith
not_wanted false (some c) e = ground arith

patched_weight :
    (input : ValidatorUpdateInput) (now : ℕ) (v : Validator) (n : String)
    → is_true input.is_default ≡ false
    → weight n (patch_validator input now v) ≤ weight n v
unfolding patch_validator
patched_weight input now v n e = ground (arith, not_wanted v.is_default input.is_default e)

by_id-cleared_around :
    (wanted : Bool) (existing : Validator) (i : String) (now : ℕ) (vs : List Validator)
    → existing.id ≡ i
    → validator_by_id i (cleared_around wanted existing now vs) ≡ validator_by_id i vs
unfolding cleared_around
by_id-cleared_around true v i now vs e =
    ap (λ j. validator_by_id i (clear_defaults (other_of_node v.node_id j) now vs)) e
    ∙ by_id-clear_others v.node_id i now vs
by_id-cleared_around false v i now vs e = refl

patched_count :
    (input : ValidatorUpdateInput) (now : ℕ) (vs : List Validator) (v : Validator)
    → DistinctIds vs
    → validator_by_id v.id vs ≡ some v
    → (n : String)
    → default_count n (
        update_validator v.id
          (patch_validator input now)
          (cleared_around (is_true input.is_default) v now vs))
      ≤ max 1 (default_count n vs)
unfolding cleared_around patch_validator
patched_count input now vs v d found n =
    let set = patch_validator input now in
    let cleared = clear_defaults (other_of_node v.node_id v.id) now vs in
    elim (Bool-cases (is_true input.is_default)) [
      | inl wanted ↦ rw wanted (
          let moved =
            default_count-update n v.id set cleared v
              (by_id-clear_others v.node_id v.id now vs ∙ found) in
          elim (Bool-cases (n == v.node_id)) [
            | inl hit ↦ ground (
              arith,
              moved,
              ap (λ m. default_count m cleared) ((eq_iff n v.node_id).0 hit),
              clear_others_self v.node_id v.id now vs v d found,
              (eq_iff n v.node_id).0 hit,
            )
            | inr miss ↦
                let ne : n ≢ v.node_id = λ e. cc (rw (e, eq_refl) at miss) in
                ground
                  (arith, moved, clear_others_ne v.node_id v.id n now vs ne, eq_iff v.node_id n)
          ])
      | inr plain ↦ rw plain (
          ground
            (arith, default_count-update n v.id set vs v found, patched_weight input now v n plain))
    ]

cleared_around-DistinctIds :
    (wanted : Bool) (v : Validator) (now : ℕ) (vs : List Validator)
    → DistinctIds vs
    → DistinctIds (cleared_around wanted v now vs)
unfolding cleared_around
cleared_around-DistinctIds true v now vs d =
    clear-DistinctIds (other_of_node v.node_id v.id) now vs d
cleared_around-DistinctIds false v now vs d = d

patched_own :
    (i : String) (input : ValidatorUpdateInput) (now : ℕ) (vs : List Validator) (v : Validator)
    → DistinctIds vs
    → validator_by_id i vs ≡ some v
    → (n : String)
    → default_count n (
        update_validator i
          (patch_validator input now)
          (cleared_around (is_true input.is_default) v now vs))
      ≤ max 1 (default_count n vs)
patched_own i input now vs v d found n =
    let same = by_id_id i vs v found in
    subst
      (λ j.
        default_count n (
          update_validator j (patch_validator input now)
            (cleared_around (is_true input.is_default) v now vs))
        ≤ max 1 (default_count n vs))
      same (patched_count input now vs v d (ap (λ j. validator_by_id j vs) same ∙ found) n)

-- In a table with distinct identifiers and at most one default for each node, updating a stored
-- validator never meets the index, whether or not the update asks for the default: the result is
-- the row with the given fields replaced, it is the one stored under the identifier, and the table
-- has distinct identifiers and at most one default for each node again.
pub update_lem :
    (i : String) (input : ValidatorUpdateInput) (env : GeoEnv) (db : GeoDb) (v : Validator)
    → IsTable db.validators
    → validator_by_id i db.validators ≡ some v
    → (after : List Validator) × (update i input env db
        ≡ ok (patch_validator input env.now v, record db { validators = after }))
      × (validator_by_id i after ≡ some (patch_validator input env.now v))
      × IsTable after
unfolding update patch_validator
update_lem i input env db v t found =
    let set = patch_validator input env.now in
    let rows = cleared_around (is_true input.is_default) v env.now db.validators in
    let after = update_validator i set rows in
    let table : IsTable after = record {
      distinct =
          update-DistinctIds i set rows (λ w. refl)
            (cleared_around-DistinctIds (is_true input.is_default) v env.now db.validators
              t.distinct);
      one_default = λ n.
          ground (
            arith,
            patched_own i input env.now db.validators v t.distinct found n,
            t.one_default n,
          );
    } in
    let row =
      by_id-update i set rows v (λ w. refl)
        (by_id-cleared_around (is_true input.is_default) v i env.now db.validators
            (by_id_id i db.validators v found)
          ∙ found) in
    (after, rw (found, checked_lem after table.one_default, row), row, table)
