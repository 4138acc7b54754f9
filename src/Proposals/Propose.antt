-- ===== src/Proposals/Propose.antt =====
-- `propose` of services/proposals.ts: the idempotency check and the plan of its transaction.
use citynode_app.Proposals.Types.{
  ProposalError, ReviewStatus, ApplyStatus, RemoveStatus, ResubmissionPolicy, rejected_only,
  rejected_or_removed, obj, end, field, Row, Submission, Action, Env, other_applicant,
  other_organization, action_in_progress, not_resubmittable,
}
use citynode_app.Prelude.{
  or_else, ℕ, String, Bool, false, Option, none, some, List, [], ◌==◌, not, ◌||◌, ◌&&◌,
  if◌then◌else◌, find,
}
use citynode_app.Proposals.Rules.{
  review_is, apply_is, remove_is, next_timestamp, actor_label, resubmission_error, truthy,
  strict_eq, org_id_of,
}
use citynode_app.Proposals.Changes.{resubmit, Target, insertion, revision, Write}
use citynode_app.Proposals.Table.{has_idempotency_key}
use citynode_app.Proposals.Plans.{
  ProposeInput, Decision, refuse, write, json_or_null, text_or_null, audit_entry,
}

-- The submission that used the key, if the call has a key that is not empty.
unfoldable pub prior_submission : ProposeInput → List Submission → Option Submission
prior_submission input subs = elim input.idempotency_key [
  | none ↦ none
  | some key ↦ if key == "" then none else find (has_idempotency_key input.plugin_id key) subs
]

abbrev pub same_request : ProposeInput → Submission → Bool
same_request input s = s.entity_id == input.entity_id && s.submitted_by == input.actor_id

-- The row of a first submission.
unfoldable pub new_row : ProposeInput → Env → Row
unfolding next_timestamp
new_row input env = record {
  id = env.proposal_id;
  plugin_id = input.plugin_id;
  entity_id = input.entity_id;
  operation = "create";
  payload = input.payload;
  schema_version = "1";
  created_by = input.actor_id;
  review_status = ReviewStatus.pending;
  apply_status = ApplyStatus.not_started;
  remove_status = RemoveStatus.not_started;
  rejection_reason = none;
  apply_error = none;
  remove_error = none;
  applied_resource_id = none;
  apply_steps = [];
  apply_activity_at = none;
  applied_at = none;
  removed_at = none;
  created_at = next_timestamp env.write_at none;
  updated_at = next_timestamp env.write_at none;
}

unfoldable pub new_submission : ProposeInput → Env → String → ℕ → Submission
new_submission input env proposal now = record {
  id = env.submission_id;
  proposal_id = proposal;
  plugin_id = input.plugin_id;
  entity_id = input.entity_id;
  submitted_by = input.actor_id;
  source = input.source;
  idempotency_key = input.idempotency_key;
  payload = input.payload;
  metadata = input.metadata;
  created_at = now;
}

-- `row` is the row that is inserted or updated
unfoldable pub propose_write : ProposeInput → Env → Row → ℕ → Target → Write
unfolding new_submission audit_entry actor_label
propose_write input env row now target = record {
  target = target;
  submission = some (new_submission input env row.id now);
  audit =
      audit_entry env row.id input.plugin_id input.entity_id Action.proposed input.actor_id
        (actor_label input.actor input.source)
        (some (
          obj (
            field "source" (text_or_null input.source)
              (field "metadata" (json_or_null input.metadata) end))));
}

abbrev policy_forbids : Option ResubmissionPolicy → Row → Bool
policy_forbids none row = false
policy_forbids (some rejected_only) row = not (review_is row.review_status ReviewStatus.rejected)
policy_forbids (some rejected_or_removed) row =
    not (review_is row.review_status ReviewStatus.rejected)
    && not (review_is row.review_status ReviewStatus.removed)
    && not (remove_is row.remove_status RemoveStatus.removed)

-- The guards of `requireSameActor`: the applicant, and the organization that the payloads name.
unfoldable pub ownership_refusal : ProposeInput → Row → Option ProposalError
unfolding org_id_of
ownership_refusal input row =
    if not input.require_same_actor
    then none
    else if not (row.created_by == input.actor_id)
    then some other_applicant
    else if truthy (org_id_of row.payload)
        && not (strict_eq (org_id_of row.payload) (org_id_of input.payload))
    then some other_organization
    else none

-- The guards on what is in progress and on the resubmission policy.
unfoldable pub lifecycle_refusal : ProposeInput → Row → Option ProposalError
unfolding resubmission_error
lifecycle_refusal input row =
    if apply_is row.apply_status ApplyStatus.applying
      || remove_is row.remove_status RemoveStatus.removing
    then some action_in_progress
    else if policy_forbids input.resubmission_policy row
    then some (not_resubmittable (resubmission_error row.review_status row.remove_status))
    else none

-- The guards on a stored proposal, in order.
unfoldable pub propose_refusal : ProposeInput → Row → Option ProposalError
unfolding ownership_refusal lifecycle_refusal
propose_refusal input row = or_else (ownership_refusal input row) (lifecycle_refusal input row)

-- From the proposal that the second select returns; the idempotency check has let the call pass.
unfoldable pub plan_propose : ProposeInput → Env → Option Row → Decision
unfolding new_row propose_write next_timestamp
plan_propose input env none =
    let row : Row = new_row input env in
    write (propose_write input env row (next_timestamp env.write_at none) (insertion row))
plan_propose input env (some row) =
    let now : ℕ = next_timestamp env.write_at (some row.updated_at) in
    elim (propose_refusal input row) [
      | some e ↦ refuse e
      | none ↦ write (
          propose_write input env row now
            (revision row.id row.updated_at now (resubmit input.payload)))
    ]
