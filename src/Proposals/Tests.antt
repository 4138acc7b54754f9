-- ===== src/Proposals/Tests.antt =====
-- The theorems of the proposals service at concrete inputs, and tests of its calls.
use citynode_app.Prelude.{
  suc, String, ℕ, ◌≡◌, ◌≢◌, inl, refl, true, false, none, some, List, [], ◌∷◌, arith, length,
}
use mathlib.Core.Option
use citynode_app.Proposals.Types.{
  Row, Submission, Db, Env, null, obj, field, end, StepStatus, ApplyStep, iso,
}
use citynode_app.Proposals.Table.{
  by_id, select, update, insert_row, insert_submission, insert_audit,
}
use citynode_app.Proposals.Changes.{Change, Write, set, insertion}
use citynode_app.Proposals.Plans.{
  ProposeInput, ReviewInput, revise, plan_approve, plan_reject, reason_of, audit_entry,
}
use citynode_app.Proposals.Propose.{
  plan_propose, propose_write, new_row, new_submission, prior_submission,
}
use citynode_app.Proposals.Rules.{next_timestamp, actor_label}
use citynode_app.Proposals.Lifecycle.{status_of, replay, trail, IsConsistent}
use citynode_app.Proposals.Service.{
  loaded, lost, commit, apply_target, add_submission, propose, propose_anew, propose_checked,
  perform, settle, load_proposal, loaded_row, at_version,
}
use citynode_app.Proposals.Steps.{StepInput, step_at, record_step}
use citynode_app.Proposals.System.{
  System, Reachable, start, next, reads, commits, Call, plan, empty, after_step,
}
use citynode_app.Proposals.Reachable.{trail-status, status-IsConsistent}
use citynode_app.Proposals.Races.{one_writer_per_version, here}
use citynode_app.Proposals.Idempotency.{propose_idempotent, empty_key_refused}
use citynode_app.Proposals.StepsFinal.{steps_kept}
use citynode_app.Proposals.Queries.{
  needs_review-approvable, lifecycle_matches, needs_review, writes,
}
use citynode_app.Proposals.Pages.{follow, follow_all, concat, IsPaged, page_limit}

abbrev env : Env
env = record {
  guard_at = 1000000;
  write_at = 1000000;
  audit_at = 1000000;
  proposal_id = "prop_1";
  submission_id = "sub_1";
  audit_id = "audit_1";
}

abbrev env2 : Env
env2 = record env { write_at = 1000009; submission_id = "sub_2"; audit_id = "audit_2" }

abbrev request : ProposeInput
request = record {
  plugin_id = "node";
  entity_id = "chicago";
  payload = null;
  source = none;
  metadata = none;
  idempotency_key = some "k1";
  actor_id = "alice";
  actor = none;
  resubmission_policy = none;
  require_same_actor = true;
}

abbrev review : ReviewInput
review = record {
  plugin_id = "node";
  entity_id = "chicago";
  expected_updated_at = iso 1000000;
  actor_id = "admin";
  actor = none;
}

abbrev first_row : Row
first_row = unfold new_row next_timestamp in new_row request env

abbrev first_write : Write
first_write =
    unfold new_row next_timestamp propose_write new_submission audit_entry actor_label in
    propose_write request env first_row 1000000 (insertion first_row)

abbrev first_submission : Submission
first_submission = unfold new_submission in new_submission request env "prop_1" 1000000

abbrev first_db : Db
first_db = record {
  proposals = first_row ∷ [];
  submissions = first_submission ∷ [];
  audit = first_write.audit ∷ [];
}

abbrev proposing : System
proposing = record { db = empty.db; pending = first_write ∷ [] }

abbrev proposed : System
proposed = record { db = first_db; pending = [] }

proposed-Reachable : Reachable proposed
unfolding plan plan_propose propose_write new_row next_timestamp new_submission audit_entry
    actor_label select commit apply_target insert_row add_submission insert_submission insert_audit
proposed-Reachable =
    next
      (next {t = proposing} start
        (reads (Call.propose request) env "node" "chicago" first_write refl refl))
      (commits [] first_write [] refl refl)

trail-status_example :
    Option.map status_of (by_id "prop_1" first_db.proposals)
    ≡ replay (trail "prop_1" first_db.audit)
trail-status_example = trail-status proposed "prop_1" proposed-Reachable

status-IsConsistent_example : IsConsistent (status_of first_row)
unfolding by_id new_row next_timestamp
status-IsConsistent_example =
    status-IsConsistent proposed "prop_1" first_row proposed-Reachable refl

abbrev approval : Write
approval =
    unfold new_row next_timestamp revise audit_entry actor_label in
    revise env2 "node" "chicago" first_row (Change.approve false) "admin" none none

abbrev rejection : Write
rejection =
    unfold new_row next_timestamp revise audit_entry actor_label in
    revise env2 "node" "chicago" first_row (Change.reject none) "admin" none
      (some (obj (field "reason" null end)))

abbrev approved_db : Db
approved_db =
    unfold new_row next_timestamp set in
    record first_db {
      proposals = set (Change.approve false) 1000009 first_row ∷ [];
      audit = first_write.audit ∷ approval.audit ∷ [];
    }

one_writer_per_version_example : commit rejection approved_db ≡ lost
unfolding plan plan_approve plan_reject reason_of revise new_row next_timestamp audit_entry
    actor_label select commit apply_target by_id at_version update set add_submission insert_audit
one_writer_per_version_example =
    one_writer_per_version proposed (record proposed { db = approved_db }) (Call.approve review)
      (Call.reject review none) env2 env2 "node" "chicago" first_row approval rejection approved_db
      proposed-Reachable refl refl refl refl here

nonempty : ◌≢◌ {A = String} "k1" ""
nonempty e = cc

propose_idempotent_example :
    propose env2 first_db request
    ≡ (loaded (load_proposal env2.guard_at first_db "node" "chicago"), first_db)
unfolding propose propose_checked propose_anew prior_submission perform settle plan_propose
    propose_write new_row next_timestamp new_submission audit_entry actor_label select commit
    apply_target insert_row add_submission insert_submission insert_audit load_proposal loaded_row
propose_idempotent_example =
    propose_idempotent env env2 empty.db first_db request "k1"
      (load_proposal env.guard_at first_db "node" "chicago") tt refl nonempty refl

abbrev unnamed : Submission
unnamed =
    unfold new_submission in
    new_submission (record request { idempotency_key = some "" }) env "prop_1" 1000000

empty_key_refused_example :
    propose env2
      (record first_db { submissions = unnamed ∷ [] })
      (record request { entity_id = "berlin"; idempotency_key = some "" })
    ≢ (loaded none, first_db)
unfolding new_row next_timestamp new_submission by_id
empty_key_refused_example =
    empty_key_refused env2 (record first_db { submissions = unnamed ∷ [] })
      (record request { entity_id = "berlin"; idempotency_key = some "" }) unnamed none first_db
      (refl, tt) refl refl

abbrev done_step : ApplyStep
done_step = record { status = StepStatus.completed; resource_id = some "node_7"; recorded_at = 5 }

abbrev applying_row : Row
applying_row =
    unfold new_row next_timestamp set in
    record (set (Change.approve false) 1000009 first_row) {
      apply_steps = ("create-node", done_step) ∷ [];
    }

abbrev step_input : StepInput
step_input = record {
  plugin_id = "node";
  entity_id = "chicago";
  step = "create-node";
  status = StepStatus.started;
  resource_id = some "node_8";
  actor_id = "admin";
  actor = none;
}

abbrev applying_db : Db
applying_db = record approved_db { proposals = applying_row ∷ [] }

steps_kept_example :
    (row' : Row) × (select "node" "chicago"
        (after_step applying_db (record_step step_input env2 applying_db)).proposals
      ≡ some row')
    × (step_at "create-node" row'.apply_steps ≡ some done_step)
unfolding select step_at by_id new_row next_timestamp set
steps_kept_example =
    steps_kept step_input env2 applying_db applying_row "create-node" done_step (refl, tt) refl refl
      (inl refl)

needs_review-approvable_example :
    lifecycle_matches needs_review env.guard_at first_row
    ≡ writes (plan_approve review env (some first_row))
unfolding new_row next_timestamp status_of
needs_review-approvable_example =
    needs_review-approvable review env first_row (omega arith) refl refl

abbrev three : List ℕ
three = 1 ∷ 2 ∷ 3 ∷ []

follow_all_example :
    (pages : List (List ℕ)) × (follow (suc (length three)) (some 2) none three ≡ some pages)
    × (concat pages ≡ three)
    × IsPaged (page_limit (some 2)) pages
unfolding page_limit
follow_all_example = follow_all (some 2) three (omega arith)
