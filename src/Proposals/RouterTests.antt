-- ===== src/Proposals/RouterTests.antt =====
-- Requests to plugins/proposals/src/index.ts at concrete inputs.
use citynode_app.Prelude.{
  map, String, ◌≡◌, ◌≢◌, ◌⊎◌, refl, true, false, Option, none, some, List, [], ◌∷◌, All,
}
use citynode_app.Proposals.Types.{
  Row, Json, null, str, field, end, iso, Db, Env, ReviewStatus, ApplyStatus, RemoveStatus,
}
use citynode_app.Proposals.Plans.{ReportInput}
use citynode_app.Proposals.Propose.{prior_submission, plan_propose}
use citynode_app.Proposals.Table.{select, insert_audit}
use citynode_app.Proposals.Service
use citynode_app.Proposals.System.{empty}
use citynode_app.Proposals.Session.{Session, forbidden, Refusal, require_admin, signed_in}
use citynode_app.Proposals.Applicants.{
  names_applicant, Application, Network, View, viewed, object_kind,
}
use citynode_app.Proposals.Router
use citynode_app.Proposals.Router.{
  Event, ProposeRequest, serve, turned_away, published, submission_of, propose,
}
use citynode_app.Proposals.Readers.{ListInput, list_proposals, can_read_proposal}
use citynode_app.Proposals.Guards.{review_needs_admin, IsGuarded, reply_to}
use citynode_app.Proposals.Access.{node_needs_member, IsAdmitted}
use citynode_app.Proposals.Privacy.{may_read, can_read_proposal_lem}
use citynode_app.Proposals.Hidden.{IsHidden, list_proposals-IsHidden}

abbrev env : Env
env = record {
  guard_at = 5;
  write_at = 5;
  audit_at = 5;
  proposal_id = "p1";
  submission_id = "s1";
  audit_id = "a1";
}

abbrev row : Row
row = record {
  id = "p0";
  plugin_id = "node";
  entity_id = "chicago";
  operation = "create";
  payload = str "the plan";
  schema_version = "1";
  created_by = "alice.near";
  review_status = ReviewStatus.pending;
  apply_status = ApplyStatus.not_started;
  remove_status = RemoveStatus.not_started;
  rejection_reason = none;
  apply_error = none;
  remove_error = none;
  applied_resource_id = none;
  apply_steps = [];
  apply_activity_at = none;
  applied_at = none;
  removed_at = none;
  created_at = 3;
  updated_at = 3;
}

abbrev first_db : Db
first_db = record { proposals = row ∷ []; submissions = []; audit = [] }

abbrev alice : Session
alice = record {
  user = some (record { role = some "user"; name = some "Alice" });
  user_id = some "u1";
  near = some (record {
    primary_account_id = some "alice.near";
    linked_accounts =
        record { account_id = "alice.near"; network = some "mainnet"; is_primary = true } ∷ [];
  });
  api_key = none;
  allow_private_submission = false;
  resubmission_policy = none;
}

abbrev report : ReportInput
report = record { plugin_id = "node"; entity_id = "chicago"; expected_updated_at = iso 1000000 }

review_needs_admin_example :
    IsGuarded first_db alice
      (λ user id. published "approved" 7 (reply_to (Router.approve report) user id env first_db))
      (serve 7 env first_db alice (Router.approve report))
review_needs_admin_example = review_needs_admin 7 env first_db alice (Router.approve report)

alice_barred : serve 7 env first_db alice (Router.approve report) ≡ turned_away forbidden first_db
unfolding serve require_admin signed_in
alice_barred = refl

abbrev application : Application
application = record {
  slug = "chicago";
  account_id = "chicago.sputnik-dao.near";
  submitter_account_id = none;
  fields = field "slug" (str "chicago") end;
}

abbrev accepts : Json → Option Application
accepts payload = some application

abbrev policy : String → Network → View
policy dao network = viewed (some (some (object_kind (some ("alice.near" ∷ [])) ∷ [])))

abbrev asked : ProposeRequest
asked = record {
  plugin_id = "node";
  entity_id = "chicago";
  payload = null;
  source = none;
  metadata = none;
  idempotency_key = none;
}

node_needs_member_example :
    ((r : Refusal) × (propose 7 env empty.db [] accepts policy alice asked
        ≡ turned_away r empty.db))
    ⊎ ((payload : Json) × IsAdmitted accepts policy alice asked payload
        × (propose 7 env empty.db [] accepts policy alice asked
            ≡ published "proposed" 7
                (Service.propose env empty.db (submission_of alice asked payload))))
node_needs_member_example = node_needs_member 7 env empty.db [] accepts policy alice asked refl

abbrev same_order : List Row → List Row
same_order rows = rows

chicago : ◌≢◌ {A = String} "chicago" ""
chicago e = cc

node : ◌≢◌ {A = String} "node" ""
node e = cc

can_read_proposal_example :
    can_read_proposal ("node" ∷ []) (λ q r. true) same_order 9 first_db alice "node" "chicago"
    ≡ may_read ("node" ∷ []) first_db.proposals alice "node" "chicago"
can_read_proposal_example =
    can_read_proposal_lem ("node" ∷ []) (λ q r. true) same_order 9 first_db alice "node" "chicago"
      (λ p rows. refl) node chicago

abbrev everything : ListInput
everything = record {
  plugin_id = none;
  entity_id = none;
  review_status = none;
  lifecycle_status = none;
  query = none;
}

list_proposals_example :
    All
      (IsHidden ("node" ∷ []) first_db alice)
      (list_proposals
        ("node" ∷ [])
        (λ q r. true)
        same_order
        9
        first_db
        alice
        everything
        none
        none).items
list_proposals_example =
    list_proposals-IsHidden ("node" ∷ []) (λ q r. true) same_order 9 first_db alice everything none
      none (λ p rows. refl) refl

alice_applies :
    map {B = String}
      (λ (e : Event). e.action)
      (propose 7 env empty.db [] accepts policy alice asked).events
    ≡ "proposed" ∷ []
unfolding propose names_applicant Service.propose_checked prior_submission Service.propose_anew
    Service.perform plan_propose select Service.settle Service.commit Service.apply_target
    Service.add_submission insert_audit Service.load_proposal
alice_applies = refl
