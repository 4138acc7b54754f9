-- ===== src/Proposals/Plans.antt =====
-- The guards of the review calls of services/proposals.ts, from the row that a call reads to the
-- transaction that it plans. `remove` of the source is `revoke` here.
use citynode_app.Prelude.{
  String, Bool, Option, none, some, ◌==◌, not, ◌||◌, ◌&&◌, or_else, if◌then◌else◌, trim,
}
use citynode_app.Proposals.Types.{
  ReviewStatus, ApplyStatus, RemoveStatus, ResubmissionPolicy, IsoText, Json, null, str, obj, end,
  field, Row, Action, AuditEntry, Actor, Env, ProposalError, not_found, stale_proposal,
  not_approvable_removed, not_approvable, not_rejectable, not_reopenable, not_revocable,
}
use citynode_app.Proposals.Rules.{
  review_is, apply_is, remove_is, is_iso_of, next_timestamp, lifecycle_timed_out, apply_stalled,
  actor_label,
}
use citynode_app.Proposals.Changes.{
  Change, approve, reject, reopen, revoke, mark_applied, mark_apply_failed, mark_removed,
  mark_remove_failed, action_of, revision, Write,
}

pub record ProposeInput : Type 0 where
  pub plugin_id : String
  pub entity_id : String
  pub payload : Json
  pub source : Option String
  pub metadata : Option Json
  pub idempotency_key : Option String
  pub actor_id : String
  pub actor : Option Actor
  pub resubmission_policy : Option ResubmissionPolicy
  pub require_same_actor : Bool

-- The input of approve, reopen and remove, and with a reason of reject.
pub record ReviewInput : Type 0 where
  pub plugin_id : String
  pub entity_id : String
  pub expected_updated_at : IsoText
  pub actor_id : String
  pub actor : Option Actor

-- The input of the four calls by which the host reports the outcome of an action.
pub record ReportInput : Type 0 where
  pub plugin_id : String
  pub entity_id : String
  pub expected_updated_at : IsoText

-- `unchanged` returns the stored proposal and writes nothing.
pub data Decision : Type 0 where
  refuse : ProposalError → Decision
  unchanged : Decision
  write : Write → Decision

abbrev pub text_or_null : Option String → Json
text_or_null none = null
text_or_null (some s) = str s

abbrev pub json_or_null : Option Json → Json
json_or_null none = null
json_or_null (some j) = j

-- the arguments of `appendAudit`
unfoldable pub audit_entry :
    Env → String → String → String → Action → String → Option String → Option Json → AuditEntry
audit_entry env proposal plugin entity action actor label details = record {
  id = env.audit_id;
  proposal_id = proposal;
  plugin_id = plugin;
  entity_id = entity;
  action = action;
  actor = actor;
  actor_label = label;
  details = details;
  created_at = env.audit_at;
}

-- the transaction that updates the version that was read
unfoldable pub revise :
    Env → String → String → Row → Change → String → Option String → Option Json → Write
unfolding audit_entry next_timestamp action_of
revise env plugin entity row change actor label details = record {
  target =
      revision row.id row.updated_at (next_timestamp env.write_at (some row.updated_at)) change;
  submission = none;
  audit = audit_entry env row.id plugin entity (action_of change) actor label details;
}

unfoldable pub plan_approve : ReviewInput → Env → Option Row → Decision
unfolding revise apply_stalled actor_label
plan_approve input env none = refuse not_found
plan_approve input env (some row) =
    let retrying : Bool =
      review_is row.review_status ReviewStatus.approved
      && (apply_is row.apply_status ApplyStatus.failed || apply_stalled env.guard_at row) in
    if not (is_iso_of row.updated_at input.expected_updated_at)
    then refuse stale_proposal
    else if review_is row.review_status ReviewStatus.removed
    then refuse not_approvable_removed
    else if apply_is row.apply_status ApplyStatus.applied
    then unchanged
    else if not (review_is row.review_status ReviewStatus.pending) && not retrying
    then refuse not_approvable
    else write (
        revise env input.plugin_id input.entity_id row (approve retrying) input.actor_id
          (actor_label input.actor none) none)

abbrev blank_to_null : String → Option String
blank_to_null s = if s == "" then none else some s

-- `input.reason?.trim() || null`
unfoldable pub reason_of : Option String → Option String
unfolding trim
reason_of none = none
reason_of (some reason) = blank_to_null (trim reason)

unfoldable pub plan_reject : ReviewInput → Option String → Env → Option Row → Decision
unfolding revise reason_of actor_label
plan_reject input reason env none = refuse not_found
plan_reject input reason env (some row) =
    let can_reject : Bool =
      review_is row.review_status ReviewStatus.pending
      || (review_is row.review_status ReviewStatus.approved
          && (apply_is row.apply_status ApplyStatus.not_started
              || apply_is row.apply_status ApplyStatus.failed)) in
    if not (is_iso_of row.updated_at input.expected_updated_at)
    then refuse stale_proposal
    else if not can_reject || apply_is row.apply_status ApplyStatus.applying
    then refuse not_rejectable
    else write (
        revise env input.plugin_id input.entity_id row (reject (reason_of reason)) input.actor_id
          (actor_label input.actor none)
          (some (obj (field "reason" (text_or_null (reason_of reason)) end))))

unfoldable pub plan_reopen : ReviewInput → Env → Option Row → Decision
unfolding revise actor_label
plan_reopen input env none = refuse not_found
plan_reopen input env (some row) =
    if not (is_iso_of row.updated_at input.expected_updated_at)
    then refuse stale_proposal
    else if not (review_is row.review_status ReviewStatus.rejected)
    then refuse not_reopenable
    else write (
        revise env input.plugin_id input.entity_id row reopen input.actor_id
          (actor_label input.actor none) none)

unfoldable pub plan_remove : ReviewInput → Env → Option Row → Decision
unfolding revise lifecycle_timed_out actor_label
plan_remove input env none = refuse not_found
plan_remove input env (some row) =
    let retrying : Bool =
      remove_is row.remove_status RemoveStatus.failed
      || (remove_is row.remove_status RemoveStatus.removing
          && lifecycle_timed_out env.guard_at row.updated_at) in
    if not (is_iso_of row.updated_at input.expected_updated_at)
    then refuse stale_proposal
    else if review_is row.review_status ReviewStatus.removed
        && remove_is row.remove_status RemoveStatus.removed
    then unchanged
    else if not (review_is row.review_status ReviewStatus.approved)
        || not (apply_is row.apply_status ApplyStatus.applied)
        || (not (remove_is row.remove_status RemoveStatus.not_started) && not retrying)
    then refuse not_revocable
    else write (
        revise env input.plugin_id input.entity_id row (revoke retrying) input.actor_id
          (actor_label input.actor none) none)

abbrev system_actor : String
system_actor = "system"

abbrev system_actor_label : Option String
system_actor_label = some "System"

unfoldable pub plan_mark_applied : ReportInput → Option String → Env → Option Row → Decision
unfolding revise
plan_mark_applied input resource env none = refuse not_found
plan_mark_applied input resource env (some row) =
    if not (is_iso_of row.updated_at input.expected_updated_at)
      || not (apply_is row.apply_status ApplyStatus.applying)
    then refuse stale_proposal
    else write (
        revise env input.plugin_id input.entity_id row
          (mark_applied (or_else resource row.applied_resource_id)) system_actor system_actor_label
          (some (
            obj (
              field "appliedResourceId" (text_or_null (or_else resource row.applied_resource_id))
                end))))

unfoldable pub plan_mark_apply_failed : ReportInput → String → Env → Option Row → Decision
unfolding revise
plan_mark_apply_failed input error env none = refuse not_found
plan_mark_apply_failed input error env (some row) =
    if not (is_iso_of row.updated_at input.expected_updated_at)
      || not (apply_is row.apply_status ApplyStatus.applying)
    then refuse stale_proposal
    else write (
        revise env input.plugin_id input.entity_id row (mark_apply_failed error) system_actor
          system_actor_label (some (obj (field "error" (str error) end))))

unfoldable pub plan_mark_removed : ReportInput → Env → Option Row → Decision
unfolding revise
plan_mark_removed input env none = refuse not_found
plan_mark_removed input env (some row) =
    if not (is_iso_of row.updated_at input.expected_updated_at)
      || not (remove_is row.remove_status RemoveStatus.removing)
    then refuse stale_proposal
    else write (
        revise env input.plugin_id input.entity_id row mark_removed system_actor system_actor_label
          none)

unfoldable pub plan_mark_remove_failed : ReportInput → String → Env → Option Row → Decision
unfolding revise
plan_mark_remove_failed input error env none = refuse not_found
plan_mark_remove_failed input error env (some row) =
    if not (is_iso_of row.updated_at input.expected_updated_at)
      || not (remove_is row.remove_status RemoveStatus.removing)
    then refuse stale_proposal
    else write (
        revise env input.plugin_id input.entity_id row (mark_remove_failed error) system_actor
          system_actor_label (some (obj (field "error" (str error) end))))
