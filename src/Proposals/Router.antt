-- ===== src/Proposals/Router.antt =====
-- The handlers of plugins/proposals/src/index.ts that write, with the events they publish.
use citynode_app.Prelude.{
  String, ℕ, Option, none, some, List, [], ◌∷◌, ◌==◌, not, ◌&&◌, any, if◌then◌else◌,
}
use citynode_app.Proposals.Types.{
  Json, ReviewStatus, ApplyStatus, RemoveStatus, StepStatus, rejected_only, Env, Db,
}
use citynode_app.Proposals.Plans.{ProposeInput, ReviewInput, ReportInput}
use citynode_app.Proposals.Steps.{StepInput}
use citynode_app.Proposals.Service
use citynode_app.Proposals.Service.{Proposal, Answer, loaded, failed, died}
use citynode_app.Proposals.Session.{
  User, Session, Response, granted, refused, Refusal, unauthorized, bad_request, internal,
  refused_by_service, nonempty, actor_of, primary_account, require_admin, has_auth_or_api_key,
  viewer_id,
}
use citynode_app.Proposals.Applicants.{Application, View, Network, node_payload}

-- ProposalEvent
pub record Event : Type 0 where
  pub action : String
  pub plugin_id : String
  pub entity_id : String
  pub review_status : ReviewStatus
  pub apply_status : ApplyStatus
  pub remove_status : RemoveStatus
  pub submission_count : ℕ
  pub timestamp : ℕ

-- What a request leads to: its response, the tables after it, and the events published.
pub record Served : Type 0 where
  pub response : Response Proposal
  pub db : Db
  pub events : List Event

unfoldable pub proposal_event : String → Proposal → ℕ → Event
proposal_event action p at = record {
  action = action;
  plugin_id = p.row.plugin_id;
  entity_id = p.row.entity_id;
  review_status = p.row.review_status;
  apply_status = p.row.apply_status;
  remove_status = p.row.remove_status;
  submission_count = p.submission_count;
  timestamp = at;
}

abbrev pub turned_away : Refusal → Db → Served
turned_away r db = record { response = refused r; db = db; events = [] }

-- publishProposalEvent, after the reply of the service; it throws on a proposal that is null
unfoldable pub published : String → ℕ → Answer → Served
unfolding proposal_event
published action at (loaded (some p), db) = record {
  response = granted p;
  db = db;
  events = proposal_event action p at ∷ [];
}
published action at (loaded none, db) = turned_away internal db
published action at (failed e, db) = turned_away (refused_by_service e) db
published action at (died, db) = turned_away internal db

-- The requests that `requireAdmin` guards and that write.
pub record StepReport : Type 0 where
  pub plugin_id : String
  pub entity_id : String
  pub step : String
  pub status : StepStatus
  pub resource_id : Option String

pub data Request : Type 0 where
  approve reopen remove mark_removed : ReportInput → Request
  reject mark_applied : ReportInput → Option String → Request
  mark_apply_failed mark_remove_failed : ReportInput → String → Request
  record_apply_step : StepReport → Request

-- `{ ...input, actorId: context.userId!, actor: context.user }`
abbrev pub reviewed_by : ReportInput → User × String → ReviewInput
reviewed_by input who = record {
  plugin_id = input.plugin_id;
  entity_id = input.entity_id;
  expected_updated_at = input.expected_updated_at;
  actor_id = who.1;
  actor = some (actor_of who.0);
}

abbrev pub step_by : StepReport → User × String → StepInput
step_by input who = record {
  plugin_id = input.plugin_id;
  entity_id = input.entity_id;
  step = input.step;
  status = input.status;
  resource_id = input.resource_id;
  actor_id = who.1;
  actor = some (actor_of who.0);
}

module _ (at : ℕ) (env : Env) (db : Db) where
  -- `.use(requireAdmin)` before a handler's body, which has the user that is let pass
  abbrev pub guarded : Response (User × String) → (User × String → Served) → Served
  guarded (refused r) body = turned_away r db
  guarded (granted who) body = body who

  unfoldable pub serve : Session → Request → Served
  unfolding require_admin published Service.approve Service.reject Service.reopen Service.remove
      Service.mark_applied Service.mark_apply_failed Service.mark_removed Service.mark_remove_failed
      Service.record_apply_step
  serve s (approve input) =
      guarded (require_admin s)
        (λ who. published "approved" at (Service.approve env db (reviewed_by input who)))
  serve s (reject input reason) =
      guarded (require_admin s)
        (λ who. published "rejected" at (Service.reject env db (reviewed_by input who) reason))
  serve s (reopen input) =
      guarded (require_admin s)
        (λ who. published "reopened" at (Service.reopen env db (reviewed_by input who)))
  serve s (remove input) =
      guarded (require_admin s)
        (λ who. published "removed" at (Service.remove env db (reviewed_by input who)))
  serve s (mark_applied input resource) =
      guarded (require_admin s)
        (λ who. published "applied" at (Service.mark_applied env db input resource))
  serve s (mark_apply_failed input error) =
      guarded (require_admin s)
        (λ who. published "apply_failed" at (Service.mark_apply_failed env db input error))
  serve s (record_apply_step input) = guarded (require_admin s) (λ who.
      published "apply_step_recorded" at (Service.record_apply_step env db (step_by input who)))
  serve s (mark_removed input) =
      guarded (require_admin s) (λ who. published "removed" at (Service.mark_removed env db input))
  serve s (mark_remove_failed input error) =
      guarded (require_admin s)
        (λ who. published "remove_failed" at (Service.mark_remove_failed env db input error))

-- The body of a `propose` request.
pub record ProposeRequest : Type 0 where
  pub plugin_id : String
  pub entity_id : String
  pub payload : Json
  pub source : Option String
  pub metadata : Option Json
  pub idempotency_key : Option String

abbrev or_unknown : Option String → String
or_unknown none = "unknown"
or_unknown (some s) = s

abbrev pub actor_id : Session → String
actor_id s = or_unknown (viewer_id s)

unfoldable pub submission_of : Session → ProposeRequest → Json → ProposeInput
unfolding viewer_id
submission_of s input payload = record {
  plugin_id = input.plugin_id;
  entity_id = input.entity_id;
  payload = payload;
  source = input.source;
  metadata = input.metadata;
  idempotency_key = input.idempotency_key;
  actor_id = actor_id s;
  actor = elim s.user [ none ↦ none | some u ↦ some (actor_of u) ];
  resubmission_policy =
      if input.plugin_id == "node" then some rejected_only else s.resubmission_policy;
  require_same_actor = input.plugin_id == "node";
}

-- the payload to store: an application for a node is checked first
unfoldable pub payload_to_store :
    (Json → Option Application)
    → (String → Network → View)
    → Session
    → ProposeRequest
    → Response Json
unfolding node_payload
payload_to_store parse view s input =
    if input.plugin_id == "node"
    then node_payload parse view s input.entity_id input.payload (nonempty s.user_id)
        (nonempty (primary_account s))
    else granted input.payload

module _ (at : ℕ) (env : Env) (db : Db) where
  abbrev pub submitted : Session → ProposeRequest → Response Json → Served
  submitted s input (refused r) = turned_away r db
  submitted s input (granted payload) =
      published "proposed" at (Service.propose env db (submission_of s input payload))

  unfoldable pub propose :
      List String
      → (Json → Option Application)
      → (String → Network → View)
      → Session
      → ProposeRequest
      → Served
  unfolding has_auth_or_api_key payload_to_store published submission_of Service.propose
  propose private_plugin_ids parse view s input =
      if not (has_auth_or_api_key s)
      then turned_away unauthorized db
      else if any (λ p. p == input.plugin_id) private_plugin_ids && not s.allow_private_submission
      then turned_away bad_request db
      else submitted s input (payload_to_store parse view s input)
