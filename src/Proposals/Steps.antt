-- ===== src/Proposals/Steps.antt =====
-- `recordApplyStep` of services/proposals.ts: one transaction under the lock of its row.
use citynode_app.Prelude.{
  refl, ◌≡◌, ℕ, String, Bool, false, Option, none, some, List, [], ◌∷◌, ◌==◌, not, ◌||◌, ◌&&◌,
  if◌then◌else◌, or_else, opt_eq,
}
use citynode_app.Proposals.Types.{
  ReviewStatus, ApplyStatus, StepStatus, ApplyStep, obj, str, end, field, Row, Action, AuditEntry,
  Env, Db, Actor,
}
use citynode_app.Proposals.Rules.{review_is, apply_is, step_is, actor_label}
use citynode_app.Proposals.Table.{select, update, insert_audit}
use citynode_app.Proposals.Plans.{text_or_null, audit_entry}

pub record StepInput : Type 0 where
  pub plugin_id : String
  pub entity_id : String
  pub step : String
  pub status : StepStatus
  pub resource_id : Option String
  pub actor_id : String
  pub actor : Option Actor

-- `steps[name]`
unfoldable pub step_at : String → List (String × ApplyStep) → Option ApplyStep
step_at name [] = none
step_at name ((k, s) ∷ steps) = if k == name then some s else step_at name steps

-- `steps[name] = step`
unfoldable pub put_step : String → ApplyStep → List (String × ApplyStep) → List (String × ApplyStep)
put_step name step [] = (name, step) ∷ []
put_step name step ((k, s) ∷ steps) =
    if k == name then (k, step) ∷ steps else (k, s) ∷ put_step name step steps

-- `input.resourceId ?? (… ? previous?.resourceId : null) ?? null`
unfoldable pub step_resource : StepInput → Option ApplyStep → Option String
step_resource input none = input.resource_id
step_resource input (some previous) = or_else input.resource_id (
    if step_is input.status StepStatus.completed || step_is previous.status input.status
    then previous.resource_id
    else none)

-- a completed step, or one that the call would not change
unfoldable pub step_settled : StepInput → Option ApplyStep → Bool
unfolding step_resource
step_settled input none = false
step_settled input (some previous) =
    step_is previous.status StepStatus.completed
    || (step_is previous.status input.status
        && opt_eq previous.resource_id (step_resource input (some previous)))

unfoldable pub touch : ℕ → Row → Row
touch activity_at row = record row { apply_activity_at = some activity_at }

unfoldable pub set_step : StepInput → ℕ → Row → Row
unfolding put_step step_resource step_at
set_step input recorded_at row = record row {
  apply_steps =
      put_step input.step
        (record {
          status = input.status;
          resource_id = step_resource input (step_at input.step row.apply_steps);
          recorded_at = recorded_at;
        })
        row.apply_steps;
  apply_activity_at = some recorded_at;
}

-- `crashed` is the exception of a unique violation in the audit log, which rolls back.
pub data StepOutcome : Type 0 where
  missing inactive crashed : StepOutcome
  unchanged recorded : Db → StepOutcome

abbrev status_text : StepStatus → String
status_text StepStatus.started = "started"
status_text StepStatus.waiting = "waiting"
status_text StepStatus.completed = "completed"

unfoldable pub step_audit : StepInput → Env → Row → AuditEntry
unfolding audit_entry actor_label step_resource step_at
step_audit input env row =
    audit_entry env row.id input.plugin_id input.entity_id Action.apply_step_recorded input.actor_id
      (actor_label input.actor none)
      (some (
        obj (
          field "step" (str input.step) (
            field "status" (str (status_text input.status)) (
              field "resourceId"
                (text_or_null (step_resource input (step_at input.step row.apply_steps))) end)))))

unfoldable pub step_transaction : StepInput → Env → Db → Option Row → StepOutcome
step_transaction input env db none = missing
step_transaction input env db (some row) =
    if not (review_is row.review_status ReviewStatus.approved)
      || not (apply_is row.apply_status ApplyStatus.applying)
    then inactive
    else if step_settled input (step_at input.step row.apply_steps)
    then unchanged (record db { proposals = update row.id (touch env.guard_at) db.proposals })
    else elim (insert_audit (step_audit input env row) db.audit) [
      | none ↦ crashed
      | some log ↦ recorded (record db {
        proposals = update row.id (set_step input env.guard_at) db.proposals;
        audit = log;
      })
    ]

unfoldable pub record_step : StepInput → Env → Db → StepOutcome
unfolding select step_transaction update insert_audit step_audit touch set_step step_settled step_at
record_step input env db =
    step_transaction input env db (select input.plugin_id input.entity_id db.proposals)

pub record_step_lem :
    (input : StepInput) (env : Env) (db : Db)
    → record_step input env db
      ≡ step_transaction input env db (select input.plugin_id input.entity_id db.proposals)
unfolding record_step
record_step_lem input env db = refl
