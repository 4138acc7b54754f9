-- ===== src/Teams/Tests.antt =====
-- A team with a few requests: the theorems at concrete inputs.
use citynode_app.Prelude.{Bool, String, ◌≡◌, refl, true, none, some, List, [], ◌∷◌, map, filter}
use citynode_app.Teams.Types.{Status, JoinRequest, TeamDb, TeamEnv}
use citynode_app.Teams.Store.{NewRequest, approve, withdraw, close, request_by_id}
use citynode_app.Teams.Policy.{closure_reason, UpstreamTeam, Community, closures_of}
use citynode_app.Teams.Tables.{TeamCall, create_call, settle_call, endorse_call, run_calls}
use citynode_app.Teams.Decided.{IsDecided, run_calls-IsDecided}
use citynode_app.Teams.Store.{RequestRecord, decided}
use citynode_app.Teams.Handlers
use citynode_app.Teams.Handlers.{
  Auth, Caller, TeamResult, granted, refused, load_team_request, decide_request, can_review,
}
use citynode_app.Teams.Decisions.{
  IsDecision, verdict_of, added_by, decide_request_lem, late_approval,
}
use citynode_app.Teams.Keys.{IsKeyed, conflict-IsApart, run_calls-IsKeyed}
use citynode_app.Teams.Closing.{swept, close-closures_of}

abbrev asked : JoinRequest
asked = record {
  id = "r1";
  organization_id = "o1";
  team_id = "t1";
  team_name = "Stewards";
  team_areas = "stake" ∷ [];
  requester_user_id = "alice";
  requester_name = none;
  status = Status.pending;
  decided_by_user_id = none;
  decided_at = none;
  closed_reason = none;
  created_at = 1;
  updated_at = 1;
}

abbrev declined_one : JoinRequest
declined_one = record asked {
  id = "r0";
  status = Status.declined;
  decided_by_user_id = some "carol";
  decided_at = some 1;
}

abbrev teams_db : TeamDb
teams_db = record { requests = declined_one ∷ asked ∷ []; endorsements = [] }

abbrev env : TeamEnv
env = record { now = 5; fresh_id = "r2" }

abbrev again : NewRequest
again = record {
  organization_id = "o1";
  team_id = "t1";
  team_name = "Stewards";
  team_areas = [];
  requester_user_id = "alice";
  requester_name = none;
}

-- A request that is pending already, an endorsement, an approval, a withdrawal that comes late, and
-- a new request.
abbrev calls : List (TeamCall × TeamEnv)
calls =
    (create_call again, env)
    ∷ (endorse_call "r1" "bob", env)
    ∷ (settle_call "r1" approve "carol", env)
    ∷ (settle_call "r1" withdraw "alice", env)
    ∷ (create_call again, env)
    ∷ []

calls_result :
    map {B = String × Status}
      (λ (r : JoinRequest). (r.id, r.status))
      (run_calls calls teams_db).requests
    ≡ ("r0", Status.declined) ∷ ("r1", Status.approved) ∷ ("r2", Status.pending) ∷ []
unfolding run_calls
calls_result = refl

teams_db-IsKeyed : IsKeyed teams_db
teams_db-IsKeyed = record {
  requests = (((conflict-IsApart declined_one asked).0 refl, tt), (tt, tt));
  endorsements = tt;
  stored = tt;
}

run_calls-IsKeyed_example : IsKeyed (run_calls calls teams_db)
run_calls-IsKeyed_example = run_calls-IsKeyed calls teams_db teams_db-IsKeyed

run_calls-IsDecided_example : IsDecided "r0" declined_one (run_calls calls teams_db).requests
unfolding request_by_id
run_calls-IsDecided_example =
    run_calls-IsDecided calls teams_db "r0" declined_one (record { stored = refl; over = refl })

abbrev everyone_left : Community
everyone_left = record { member_ids = []; teams = [] }

close_example :
    close (closures_of everyone_left (filter (λ r. true) teams_db.requests)) env teams_db
    ≡ record teams_db { requests = map (swept (λ r. true) everyone_left env.now) teams_db.requests }
close_example = close-closures_of (λ r. true) everyone_left env teams_db (refl, (refl, tt))

abbrev stewards : UpstreamTeam
stewards = record { id = "t1"; name = "Stewards"; areas = "stake" ∷ [] }

abbrev carol : Caller
carol = record {
  user_id = "carol";
  auth = record {
    role = some "owner";
    teams = stewards ∷ [];
    own_team_ids = [];
    members = "alice" ∷ "carol" ∷ [];
  };
}

abbrev same_order : List JoinRequest → List JoinRequest
same_order rows = rows

abbrev joins : String → String → Bool
joins team user = true

abbrev waiting : RequestRecord
waiting = record { row = asked; endorser_user_ids = [] }

abbrev approved : RequestRecord
approved =
    unfold decided in record { row = decided approve "carol" 5 asked; endorser_user_ids = [] }

decide_example :
    (x : RequestRecord) × ((load_team_request same_order carol env "r1" teams_db).0 ≡ granted x)
    × (can_review carol.auth ≡ true)
    × IsDecision x.row.id
        (verdict_of true)
        carol
        env
        (decide_request same_order carol env [] joins true "r1" teams_db).db
    × ((decide_request same_order carol env [] joins true "r1" teams_db).added
        ≡ added_by true x.row)
unfolding decide_request closure_reason
decide_example =
    decide_request_lem same_order carol env [] joins true "r1" teams_db approved (refl, (refl, tt))
      refl

abbrev withdrawal : List (TeamCall × TeamEnv)
withdrawal = (settle_call "r1" withdraw "alice", env) ∷ []

late_approval_example :
    ((decide_request same_order carol env withdrawal joins true "r1" teams_db).response
      ≡ refused Handlers.conflict)
    × ((decide_request same_order carol env withdrawal joins true "r1" teams_db).added
        ≡ ("t1", "alice") ∷ [])
unfolding load_team_request run_calls closure_reason
late_approval_example =
    late_approval same_order carol env withdrawal joins "r1" teams_db teams_db waiting refl refl
      refl refl refl
