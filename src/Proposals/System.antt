-- ===== src/Proposals/System.antt =====
-- Calls of services/proposals.ts that interleave: each reads the tables, plans, and commits later.
-- A planned transaction waits in `pending` until it runs; one whose host stopped never runs.
use citynode_app.Prelude.{String, ◌≡◌, Option, List, [], ◌∷◌, ◌++◌}
use citynode_app.Proposals.Types.{Row, Env, Db}
use citynode_app.Proposals.Table.{select}
use citynode_app.Proposals.Changes.{Write}
use citynode_app.Proposals.Plans.{
  ProposeInput, ReviewInput, ReportInput, Decision, write, plan_approve, plan_reject, plan_reopen,
  plan_remove, plan_mark_applied, plan_mark_apply_failed, plan_mark_removed,
  plan_mark_remove_failed,
}
use citynode_app.Proposals.Propose.{plan_propose}
use citynode_app.Proposals.Steps.{StepInput, StepOutcome, unchanged, recorded, record_step}
use citynode_app.Proposals.Service.{Commit, committed, commit}

pub data Call : Type 0 where
  propose : ProposeInput → Call
  approve reopen remove : ReviewInput → Call
  reject : ReviewInput → Option String → Call
  mark_applied : ReportInput → Option String → Call
  mark_apply_failed mark_remove_failed : ReportInput → String → Call
  mark_removed : ReportInput → Call

unfoldable pub plan : Call → Env → Option Row → Decision
unfolding plan_propose plan_approve plan_reopen plan_remove plan_reject plan_mark_applied
    plan_mark_apply_failed plan_mark_removed plan_mark_remove_failed
plan (propose input) = plan_propose input
plan (approve input) = plan_approve input
plan (reopen input) = plan_reopen input
plan (remove input) = plan_remove input
plan (reject input reason) = plan_reject input reason
plan (mark_applied input resource) = plan_mark_applied input resource
plan (mark_apply_failed input error) = plan_mark_apply_failed input error
plan (mark_removed input) = plan_mark_removed input
plan (mark_remove_failed input error) = plan_mark_remove_failed input error

pub record System : Type 0 where
  pub db : Db
  pub pending : List Write

abbrev pub empty : System
empty = record { db = record { proposals = []; submissions = []; audit = [] }; pending = [] }

abbrev pub after_commit : Db → Commit → Db
after_commit db (committed db') = db'
after_commit db _ = db

abbrev pub after_step : Db → StepOutcome → Db
after_step db (unchanged db') = db'
after_step db (recorded db') = db'
after_step db _ = db

pub data Move (s t : System) : Type 0 where
  reads :
      (c : Call) (env : Env) (plugin entity : String) (w : Write)
      → plan c env (select plugin entity s.db.proposals) ≡ write w
      → t ≡ record s { pending = w ∷ s.pending }
      → Move s t
  commits :
      (before : List Write) (w : Write) (later : List Write)
      → s.pending ≡ before ++ w ∷ later
      → t ≡ record { db = after_commit s.db (commit w s.db); pending = before ++ later }
      → Move s t
  records :
      (input : StepInput) (env : Env)
      → t ≡ record s { db = after_step s.db (record_step input env s.db) }
      → Move s t

-- The systems that the empty tables can come to.
pub data Reachable : System → Type 0 where
  start : Reachable empty
  next : {s t : System} → Reachable s → Move s t → Reachable t
