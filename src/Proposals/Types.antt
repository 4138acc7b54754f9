-- ===== src/Proposals/Types.antt =====
-- The tables of plugins/proposals/src/db/schema.ts and the types of services/proposals.ts.
-- An instant is its number of milliseconds.
pub use citynode_app.Json.{
  Json, null, bool, num, str, arr, obj, Items, nil, cons, Fields, end, field,
}
use citynode_app.Prelude.{ℕ, String, Option, List}

pub data ReviewStatus : Type 0 where
  pending approved rejected removed : ReviewStatus

pub data ApplyStatus : Type 0 where
  not_started applying applied failed : ApplyStatus

pub data RemoveStatus : Type 0 where
  not_started removing removed failed : RemoveStatus

pub data ResubmissionPolicy : Type 0 where
  rejected_only rejected_or_removed : ResubmissionPolicy

-- ApplyStepStatus of contract.ts
pub data StepStatus : Type 0 where
  started waiting completed : StepStatus

pub record ApplyStep : Type 0 where
  pub status : StepStatus
  pub resource_id : Option String
  pub recorded_at : ℕ

-- A text that `toISOString` writes, by its instant, or any other text.
pub data IsoText : Type 0 where
  iso : ℕ → IsoText
  other_text : String → IsoText

-- proposals; `apply_steps` is the parsed text, no steps where it is null
pub record Row : Type 0 where
  pub id : String
  pub plugin_id : String
  pub entity_id : String
  pub operation : String
  pub payload : Json
  pub schema_version : String
  pub created_by : String
  pub review_status : ReviewStatus
  pub apply_status : ApplyStatus
  pub remove_status : RemoveStatus
  pub rejection_reason : Option String
  pub apply_error : Option String
  pub remove_error : Option String
  pub applied_resource_id : Option String
  pub apply_steps : List (String × ApplyStep)
  pub apply_activity_at : Option ℕ
  pub applied_at : Option ℕ
  pub removed_at : Option ℕ
  pub created_at : ℕ
  pub updated_at : ℕ

-- proposal_submissions
pub record Submission : Type 0 where
  pub id : String
  pub proposal_id : String
  pub plugin_id : String
  pub entity_id : String
  pub submitted_by : String
  pub source : Option String
  pub idempotency_key : Option String
  pub payload : Json
  pub metadata : Option Json
  pub created_at : ℕ

-- The values that the column `action` takes.
pub data Action : Type 0 where
  proposed approved apply_retried rejected reopened approval_revocation_started : Action
  removal_retried applied apply_failed apply_step_recorded approval_revoked remove_failed : Action

-- proposal_audit_log
pub record AuditEntry : Type 0 where
  pub id : String
  pub proposal_id : String
  pub plugin_id : String
  pub entity_id : String
  pub action : Action
  pub actor : String
  pub actor_label : Option String
  pub details : Option Json
  pub created_at : ℕ

-- The three tables, in the order of insertion.
pub record Db : Type 0 where
  pub proposals : List Row
  pub submissions : List Submission
  pub audit : List AuditEntry

pub data ProposalError : Type 0 where
  not_found stale_proposal idempotency_key_reused other_applicant other_organization : ProposalError
  action_in_progress not_approvable_removed not_approvable : ProposalError
  not_rejectable not_reopenable not_revocable step_inactive : ProposalError
  not_resubmittable : String → ProposalError

-- `user` of the request context: only the name is read
pub record Actor : Type 0 where
  pub name : Option String

-- What one call takes from the clock and the random generator, each where it is read.
pub record Env : Type 0 where
  pub guard_at : ℕ
  pub write_at : ℕ
  pub audit_at : ℕ
  pub proposal_id : String
  pub submission_id : String
  pub audit_id : String
