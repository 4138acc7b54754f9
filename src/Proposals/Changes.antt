-- ===== src/Proposals/Changes.antt =====
-- What the transactions of services/proposals.ts write: the columns that each `set` names, and the
-- action of the audit entry beside it.
use citynode_app.Prelude.{ℕ, String, Bool, Option, none, some, [], if◌then◌else◌}
use citynode_app.Proposals.Types.{
  ReviewStatus, ApplyStatus, RemoveStatus, Json, Row, Submission, Action, AuditEntry,
}

-- one constructor for each versioned update; the flag says whether the call retries
pub data Change : Type 0 where
  resubmit : Json → Change
  approve : Bool → Change
  reject : Option String → Change
  reopen : Change
  revoke : Bool → Change
  mark_applied : Option String → Change
  mark_apply_failed : String → Change
  mark_removed : Change
  mark_remove_failed : String → Change

unfoldable pub set_resubmitted : Json → ℕ → Row → Row
set_resubmitted payload now row = record row {
  payload = payload;
  review_status = ReviewStatus.pending;
  apply_status = ApplyStatus.not_started;
  remove_status = RemoveStatus.not_started;
  rejection_reason = none;
  apply_error = none;
  remove_error = none;
  applied_resource_id = none;
  apply_steps = [];
  applied_at = none;
  removed_at = none;
  updated_at = now;
}

unfoldable pub set_approved : ℕ → Row → Row
set_approved now row = record row {
  review_status = ReviewStatus.approved;
  apply_status = ApplyStatus.applying;
  rejection_reason = none;
  apply_error = none;
  apply_activity_at = some now;
  updated_at = now;
}

unfoldable pub set_rejected : Option String → ℕ → Row → Row
set_rejected reason now row = record row {
  review_status = ReviewStatus.rejected;
  apply_status = ApplyStatus.not_started;
  rejection_reason = reason;
  apply_error = none;
  apply_steps = [];
  apply_activity_at = none;
  updated_at = now;
}

unfoldable pub set_reopened : ℕ → Row → Row
set_reopened now row = record row {
  review_status = ReviewStatus.pending;
  rejection_reason = none;
  apply_error = none;
  updated_at = now;
}

unfoldable pub set_revoking : ℕ → Row → Row
set_revoking now row = record row {
  remove_status = RemoveStatus.removing;
  remove_error = none;
  updated_at = now;
}

unfoldable pub set_applied : Option String → ℕ → Row → Row
set_applied resource now row = record row {
  apply_status = ApplyStatus.applied;
  apply_error = none;
  applied_resource_id = resource;
  applied_at = some now;
  updated_at = now;
}

unfoldable pub set_apply_failed : String → ℕ → Row → Row
set_apply_failed error now row = record row {
  apply_status = ApplyStatus.failed;
  apply_error = some error;
  updated_at = now;
}

unfoldable pub set_removed : ℕ → Row → Row
set_removed now row = record row {
  review_status = ReviewStatus.removed;
  remove_status = RemoveStatus.removed;
  remove_error = none;
  removed_at = some now;
  updated_at = now;
}

unfoldable pub set_remove_failed : String → ℕ → Row → Row
set_remove_failed error now row = record row {
  remove_status = RemoveStatus.failed;
  remove_error = some error;
  updated_at = now;
}

unfoldable pub set : Change → ℕ → Row → Row
unfolding set_resubmitted set_approved set_rejected set_reopened set_revoking set_applied
    set_apply_failed set_removed set_remove_failed
set (resubmit payload) = set_resubmitted payload
set (approve _) = set_approved
set (reject reason) = set_rejected reason
set reopen = set_reopened
set (revoke _) = set_revoking
set (mark_applied resource) = set_applied resource
set (mark_apply_failed error) = set_apply_failed error
set mark_removed = set_removed
set (mark_remove_failed error) = set_remove_failed error

unfoldable pub action_of : Change → Action
action_of (resubmit _) = Action.proposed
action_of (approve retrying) = if retrying then Action.apply_retried else Action.approved
action_of (reject _) = Action.rejected
action_of reopen = Action.reopened
action_of (revoke retrying) =
    if retrying then Action.removal_retried else Action.approval_revocation_started
action_of (mark_applied _) = Action.applied
action_of (mark_apply_failed _) = Action.apply_failed
action_of mark_removed = Action.approval_revoked
action_of (mark_remove_failed _) = Action.remove_failed

-- The row that a transaction inserts, or the version of a row that it updates.
pub data Target : Type 0 where
  insertion : Row → Target
  revision : String → ℕ → ℕ → Change → Target

-- A transaction that a call has planned from the row that it read.
pub record Write : Type 0 where
  pub target : Target
  pub submission : Option Submission
  pub audit : AuditEntry
