-- ===== src/Proposals/Planned.antt =====
-- What a planned transaction of services/proposals.ts has to do with the row that its call read.
use citynode_app.Proposals.Propose.{ownership_refusal, lifecycle_refusal, new_row, propose_refusal}
use citynode_app.Prelude.{
  or_else-none, false, or_else, ◌&&◌, ◌||◌, ℕ, ◌<◌, ◌≤◌, String, ◌≡◌, true, none, some, List, arith,
}
use citynode_app.Proposals.Plans.{ProposeInput, reason_of, write}
use citynode_app.Proposals.Types.{
  ReviewStatus, ApplyStatus, RemoveStatus, Row, Action, AuditEntry, Env,
}
use citynode_app.Proposals.Table.{by_id}
use citynode_app.Proposals.Changes.{resubmit, revoke, Change, insertion, revision, Write, action_of}
use citynode_app.Proposals.Rules.{
  next_timestamp, review_is, apply_is, remove_is, apply_stalled, lifecycle_timed_out,
}
use citynode_app.Proposals.System.{
  Call, propose, approve, reopen, remove, reject, mark_applied, mark_apply_failed, mark_removed,
  mark_remove_failed, plan,
}
use citynode_app.Proposals.Lifecycle.{status_of, initial, allowed}

-- A planned insertion is a first submission.
pub record IsFirst (row : Row) (e : AuditEntry) : Type 0 where
  pub status : status_of row ≡ initial
  pub audited : e.proposal_id ≡ row.id
  pub action : e.action ≡ Action.proposed

-- A planned revision is of `row`, or of a version that `row` has left behind.
pub record IsPlanned (row : Row) (version now : ℕ) (c : Change) (e : AuditEntry) : Type 0 where
  pub seen : version ≤ row.updated_at
  pub later : version < now
  pub permitted : row.updated_at ≡ version → allowed c (status_of row) ≡ true
  pub action : e.action ≡ action_of c

pub data Legal (rows : List Row) (w : Write) : Type 0 where
  first : (row : Row) → w.target ≡ insertion row → IsFirst row w.audit → Legal rows w
  revises :
      (i : String) (version now : ℕ) (c : Change) (row : Row)
      → w.target ≡ revision i version now c
      → by_id i rows ≡ some row
      → w.audit.proposal_id ≡ i
      → IsPlanned row version now c w.audit
      → Legal rows w

-- A call that read no row plans an insertion; only `propose` does.
pub plan-none :
    (c : Call) (env : Env) (w : Write)
    → plan c env none ≡ write w
    → (row : Row) × (w.target ≡ insertion row) × IsFirst row w.audit
unfolding plan status_of
plan-none (propose input) env w e = (new_row input env, ground arith, ground arith)
plan-none _ env w e = cc

lifecycle_free :
    (input : ProposeInput) (row : Row)
    → lifecycle_refusal input row ≡ none
    → (apply_is row.apply_status ApplyStatus.applying ≡ false)
      × (remove_is row.remove_status RemoveStatus.removing ≡ false)
unfolding lifecycle_refusal
lifecycle_free input row e = ground arith

refusal_free :
    (input : ProposeInput) (row : Row)
    → propose_refusal input row ≡ none
    → lifecycle_refusal input row ≡ none
unfolding propose_refusal
refusal_free input row e =
    (or_else-none (ownership_refusal input row) (lifecycle_refusal input row) e)

not_in_progress :
    (input : ProposeInput) (row : Row)
    → propose_refusal input row ≡ none
    → (apply_is row.apply_status ApplyStatus.applying ≡ false)
      × (remove_is row.remove_status RemoveStatus.removing ≡ false)
not_in_progress input row e = ground (arith, lifecycle_free input row, refusal_free input row)

-- What a call plans from the row that it read: a revision of that version.
pub plan-some :
    (c : Call) (env : Env) (row : Row) (w : Write)
    → plan c env (some row) ≡ write w
    → (now : ℕ) × (change : Change) × (w.target ≡ revision row.id row.updated_at now change)
      × (w.audit.proposal_id ≡ row.id)
      × IsPlanned row row.updated_at now change w.audit
unfolding plan status_of allowed
plan-some (propose input) env row w e = (
  next_timestamp env.write_at (some row.updated_at),
  resubmit input.payload,
  ground arith,
  ground arith,
  ground (arith, not_in_progress input row),
)
plan-some (approve input) env row w e = (
  next_timestamp env.write_at (some row.updated_at),
  Change.approve (
      review_is row.review_status ReviewStatus.approved
      && (apply_is row.apply_status ApplyStatus.failed || apply_stalled env.guard_at row)),
  ground arith,
  ground arith,
  ground arith,
)
plan-some (reopen input) env row w e = (
  next_timestamp env.write_at (some row.updated_at),
  Change.reopen,
  ground arith,
  ground arith,
  ground arith,
)
plan-some (remove input) env row w e = (
  next_timestamp env.write_at (some row.updated_at),
  revoke (
      remove_is row.remove_status RemoveStatus.failed
      || (remove_is row.remove_status RemoveStatus.removing
          && lifecycle_timed_out env.guard_at row.updated_at)),
  ground arith,
  ground arith,
  ground arith,
)
plan-some (reject input reason) env row w e = (
  next_timestamp env.write_at (some row.updated_at),
  Change.reject (reason_of reason),
  ground arith,
  ground arith,
  ground arith,
)
plan-some (mark_applied input resource) env row w e = (
  next_timestamp env.write_at (some row.updated_at),
  Change.mark_applied (or_else resource row.applied_resource_id),
  ground arith,
  ground arith,
  ground arith,
)
plan-some (mark_apply_failed input error) env row w e = (
  next_timestamp env.write_at (some row.updated_at),
  Change.mark_apply_failed error,
  ground arith,
  ground arith,
  ground arith,
)
plan-some (mark_removed input) env row w e = (
  next_timestamp env.write_at (some row.updated_at),
  Change.mark_removed,
  ground arith,
  ground arith,
  ground arith,
)
plan-some (mark_remove_failed input error) env row w e = (
  next_timestamp env.write_at (some row.updated_at),
  Change.mark_remove_failed error,
  ground arith,
  ground arith,
  ground arith,
)
