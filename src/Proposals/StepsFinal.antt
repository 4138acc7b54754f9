-- ===== src/Proposals/StepsFinal.antt =====
-- The setup steps that `recordApplyStep` of services/proposals.ts stores.
use citynode_app.Prelude.{
  String, ℕ, ◌≡◌, ◌≢◌, ◌⊎◌, inl, inr, refl, ap, ◌∙◌, true, some, List, [], ◌∷◌, arith,
  if◌then◌else◌, ◌==◌, eq_iff,
}
use citynode_app.Proposals.Types.{Row, Db, Env, StepStatus, ApplyStep}
use citynode_app.Proposals.Table.{select}
use citynode_app.Proposals.Keys.{Distinct, KeepsKeys, select-update_self}
use citynode_app.Proposals.Steps.{
  StepInput, StepOutcome, missing, inactive, crashed, unchanged, recorded, record_step,
  record_step_lem, step_transaction, step_settled, step_at, put_step, set_step, touch,
}
use citynode_app.Proposals.StepLaws.{unchanged_inv, recorded_inv}
use citynode_app.Proposals.System.{after_step}

step_at-put_step :
    (name other : String) (step : ApplyStep) (steps : List (String × ApplyStep))
    → step_at other (put_step name step steps)
      ≡ (if name == other then some step else step_at other steps)
unfolding step_at put_step
step_at-put_step name other step [] = refl
step_at-put_step name other step ((k, s) ∷ steps) = ground (
  arith,
  eq_iff k name,
  eq_iff k other,
  eq_iff name other,
  step_at-put_step name other step steps,
)

touch-KeepsKeys : (now : ℕ) → KeepsKeys (touch now)
unfolding touch
touch-KeepsKeys now = record { id = λ r. refl; plugin_id = λ r. refl; entity_id = λ r. refl }

set_step-KeepsKeys : (input : StepInput) (now : ℕ) → KeepsKeys (set_step input now)
unfolding set_step
set_step-KeepsKeys input now = record {
  id = λ r. refl;
  plugin_id = λ r. refl;
  entity_id = λ r. refl;
}

completed_settled :
    (input : StepInput) (st : ApplyStep)
    → st.status ≡ StepStatus.completed
    → step_settled input (some st) ≡ true
unfolding step_settled
completed_settled input st c = rw c

-- A recorded step was not completed.
unsettled :
    (input : StepInput) (env : Env) (db db' : Db) (row : Row) (st : ApplyStep)
    → step_transaction input env db (some row) ≡ recorded db'
    → step_at input.step row.apply_steps ≡ some st
    → st.status ≢ StepStatus.completed
unfolding step_transaction
unsettled input env db db' row st e had c =
    let settled : step_settled input (step_at input.step row.apply_steps) ≡ true =
      ap (step_settled input) had ∙ completed_settled input st c in
    ground (arith, settled)

other_step :
    (input : StepInput) (now : ℕ) (row : Row) (name : String)
    → input.step ≢ name
    → step_at name (set_step input now row).apply_steps ≡ step_at name row.apply_steps
unfolding set_step
other_step input now row name ne = rw step_at-put_step (ground (arith, eq_iff input.step name))

-- `recordApplyStep` keeps every completed step, with its resource and its time, and every step
-- other than its own, whatever its reply; the proposal stays stored under its key.
pub steps_kept :
    (input : StepInput) (env : Env) (db : Db) (row : Row) (name : String) (st : ApplyStep)
    → Distinct db.proposals
    → select input.plugin_id input.entity_id db.proposals ≡ some row
    → step_at name row.apply_steps ≡ some st
    → (st.status ≡ StepStatus.completed) ⊎ (input.step ≢ name)
    → (row' : Row) × (select input.plugin_id input.entity_id
          (after_step db (record_step input env db)).proposals
        ≡ some row')
      × (step_at name row'.apply_steps ≡ some st)
unfolding touch
steps_kept input env db row name st d found had kept =
    rw (record_step_lem, found) (go (step_transaction input env db (some row)) refl)
  where
    spared :
        (db' : Db) → step_transaction input env db (some row) ≡ recorded db' → input.step ≢ name
    spared db' e same = go kept
      where
        go : (st.status ≡ StepStatus.completed) ⊎ (input.step ≢ name) → ⊥
        go (inl done) = unsettled input env db db' row st e (rw same had) done
        go (inr other) = other same

    go :
        (o : StepOutcome)
        → step_transaction input env db (some row) ≡ o
        → (row' : Row) × (select input.plugin_id input.entity_id (after_step db o).proposals
            ≡ some row')
          × (step_at name row'.apply_steps ≡ some st)
    go missing e = (row, found, had)
    go inactive e = (row, found, had)
    go crashed e = (row, found, had)
    go (unchanged db') e = (
      touch env.guard_at row,
      rw (unchanged_inv input env db db' row e) (
          select-update_self input.plugin_id input.entity_id (touch env.guard_at) db.proposals row
            (touch-KeepsKeys env.guard_at) d found),
      had,
    )
    go (recorded db') e = (
      set_step input env.guard_at row,
      rw (recorded_inv input env db db' row e) (
          select-update_self input.plugin_id input.entity_id (set_step input env.guard_at)
            db.proposals row (set_step-KeepsKeys input env.guard_at) d found),
      other_step input env.guard_at row name (spared db' e) ∙ had,
    )
