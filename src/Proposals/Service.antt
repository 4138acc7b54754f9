-- ===== src/Proposals/Service.antt =====
-- The calls of services/proposals.ts, from a plan to its transaction and the reply. Between the read
-- and the transaction other calls may run: see Proposals/System.antt.
use citynode_app.Prelude.{
  ℕ, String, Bool, false, Option, none, some, List, ◌==◌, not, if◌then◌else◌, eqb, filter, length,
}
use citynode_app.Proposals.Types.{
  Row, Submission, Env, Db, ProposalError, not_found, stale_proposal, idempotency_key_reused,
  step_inactive,
}
use citynode_app.Proposals.Rules.{apply_stalled}
use citynode_app.Proposals.Table.{
  by_id, select, update, insert_row, insert_submission, insert_audit,
}
use citynode_app.Proposals.Changes.{Target, insertion, revision, Write, set}
use citynode_app.Proposals.Plans.{
  ProposeInput, ReviewInput, ReportInput, Decision, refuse, unchanged, write, plan_approve,
  plan_reject, plan_reopen, plan_remove, plan_mark_applied, plan_mark_apply_failed,
  plan_mark_removed, plan_mark_remove_failed,
}
use citynode_app.Proposals.Propose.{prior_submission, same_request, plan_propose}
use citynode_app.Proposals.Steps
use citynode_app.Proposals.Steps.{StepInput, record_step}

-- What `loadProposal` returns: the row's fields, the number of its submissions, and the stall test.
pub record Proposal : Type 0 where
  pub row : Row
  pub submission_count : ℕ
  pub apply_timed_out : Bool

unfoldable pub count_submissions : Db → String → ℕ
count_submissions db i = length (filter (λ (s : Submission). s.proposal_id == i) db.submissions)

unfoldable pub loaded_row : ℕ → Db → Option Row → Option Proposal
loaded_row now db none = none
loaded_row now db (some row) = some (record {
  row = row;
  submission_count = count_submissions db row.id;
  apply_timed_out = apply_stalled now row;
})

unfoldable pub load_proposal : ℕ → Db → String → String → Option Proposal
unfolding loaded_row count_submissions apply_stalled select
load_proposal now db plugin entity = loaded_row now db (select plugin entity db.proposals)

-- the callback of `db.transaction`: `lost` returns false, `crashed` throws and rolls back
pub data Commit : Type 0 where
  committed : Db → Commit
  lost crashed : Commit

unfoldable pub at_version : ℕ → Option Row → Bool
at_version version none = false
at_version version (some row) = eqb row.updated_at version

unfoldable pub apply_target : Target → List Row → Option (List Row)
unfolding insert_row at_version by_id update set
apply_target (insertion row) rows = insert_row row rows
apply_target (revision i version now change) rows =
    if at_version version (by_id i rows) then some (update i (set change now) rows) else none

unfoldable pub add_submission : Option Submission → List Submission → Option (List Submission)
unfolding insert_submission
add_submission none subs = some subs
add_submission (some s) subs = insert_submission s subs

unfoldable pub commit : Write → Db → Commit
commit w db = elim (apply_target w.target db.proposals) [
  | none ↦ lost
  | some rows ↦ elim (add_submission w.submission db.submissions) [
    | none ↦ crashed
    | some subs ↦ elim (insert_audit w.audit db.audit) [
      | none ↦ crashed
      | some log ↦ committed (record { proposals = rows; submissions = subs; audit = log })
    ]
  ]
]

pub data Reply : Type 0 where
  loaded : Option Proposal → Reply
  failed : ProposalError → Reply
  died : Reply

abbrev pub Answer : Type 0
Answer = Reply × Db

-- the reply to a transaction
unfoldable pub settle : String → String → Env → Db → Commit → Answer
settle plugin entity env db (committed db') =
    (loaded (load_proposal env.guard_at db' plugin entity), db')
settle plugin entity env db lost = (failed stale_proposal, db)
settle plugin entity env db crashed = (died, db)

-- a call that runs from its read to its reply with no other in between
unfoldable pub perform : String → String → Env → Db → Decision → Answer
perform plugin entity env db (refuse e) = (failed e, db)
perform plugin entity env db unchanged = (loaded (load_proposal env.guard_at db plugin entity), db)
perform plugin entity env db (write w) = settle plugin entity env db (commit w db)

module _ (env : Env) (db : Db) where
  abbrev call_review : ReviewInput → (ReviewInput → Env → Option Row → Decision) → Answer
  call_review input plan =
      perform input.plugin_id input.entity_id env db
        (plan input env (select input.plugin_id input.entity_id db.proposals))

  abbrev call_report : ReportInput → (ReportInput → Env → Option Row → Decision) → Answer
  call_report input plan =
      perform input.plugin_id input.entity_id env db
        (plan input env (select input.plugin_id input.entity_id db.proposals))

  unfoldable pub approve : ReviewInput → Answer
  approve input = call_review input plan_approve

  unfoldable pub reject : ReviewInput → Option String → Answer
  reject input reason = call_review input (λ i. plan_reject i reason)

  unfoldable pub reopen : ReviewInput → Answer
  reopen input = call_review input plan_reopen

  unfoldable pub remove : ReviewInput → Answer
  remove input = call_review input plan_remove

  unfoldable pub mark_applied : ReportInput → Option String → Answer
  mark_applied input resource = call_report input (λ i. plan_mark_applied i resource)

  unfoldable pub mark_apply_failed : ReportInput → String → Answer
  mark_apply_failed input error = call_report input (λ i. plan_mark_apply_failed i error)

  unfoldable pub mark_removed : ReportInput → Answer
  mark_removed input = call_report input plan_mark_removed

  unfoldable pub mark_remove_failed : ReportInput → String → Answer
  mark_remove_failed input error = call_report input (λ i. plan_mark_remove_failed i error)

  unfoldable pub propose_anew : ProposeInput → Answer
  propose_anew input =
      perform input.plugin_id input.entity_id env db
        (plan_propose input env (select input.plugin_id input.entity_id db.proposals))

  unfoldable pub propose_again : ProposeInput → Option Proposal → Answer
  propose_again input none = propose_anew input
  propose_again input (some p) = (loaded (some p), db)

  -- The idempotency check, then the plan from the stored proposal.
  unfoldable pub propose_checked : ProposeInput → Option Submission → Answer
  propose_checked input none = propose_anew input
  propose_checked input (some s) =
      if not (same_request input s)
      then (failed idempotency_key_reused, db)
      else propose_again input (load_proposal env.guard_at db input.plugin_id input.entity_id)

  unfoldable pub propose : ProposeInput → Answer
  propose input = propose_checked input (prior_submission input db.submissions)

  unfoldable pub step_answer : StepInput → Steps.StepOutcome → Answer
  step_answer input Steps.missing = (failed not_found, db)
  step_answer input Steps.inactive = (failed step_inactive, db)
  step_answer input Steps.crashed = (died, db)
  step_answer input (Steps.unchanged db') =
      (loaded (load_proposal env.guard_at db' input.plugin_id input.entity_id), db')
  step_answer input (Steps.recorded db') =
      (loaded (load_proposal env.guard_at db' input.plugin_id input.entity_id), db')

  unfoldable pub record_apply_step : StepInput → Answer
  record_apply_step input = step_answer input (record_step input env db)
