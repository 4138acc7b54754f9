-- ===== src/Teams/Handlers.antt =====
-- The handlers of api/src/index.ts on requests to join a team. What the auth service answers is a
-- parameter, and so is the order of a list; the names of members and the rest of what a handler
-- shows of a request are left out. Between what a handler reads and what it writes, other calls of
-- the service may run: `meanwhile`.
use citynode_app.Prelude.{
  String, Bool, true, false, Option, none, some, List, [], ◌∷◌, ◌==◌, ◌&&◌, ◌||◌, not, any, find,
  filter, map, if◌then◌else◌,
}
use citynode_app.Teams.Types.{JoinRequest, TeamDb, TeamEnv, Status, is_pending, is_closed}
use citynode_app.Teams.Store.{
  create, Verdict, approve, decline, withdraw, settle, close, endorse, RequestRecord, list, get,
  request_by_id, Closure,
}
use citynode_app.Teams.Policy.{UpstreamTeam, closures_of, is_joinable_team, recognized_areas}
use citynode_app.Teams.Tables.{TeamCall, run_calls}

-- What the auth service answers about the community for the caller.
pub record Auth : Type 0 where
  pub role : Option String
  pub teams : List UpstreamTeam
  pub own_team_ids : List String
  pub members : List String

pub data TeamError : Type 0 where
  not_found forbidden conflict bad_request internal : TeamError

pub data TeamResult {ℓ} (A : Type ℓ) : Type ℓ where
  granted : A → TeamResult A
  refused : TeamError → TeamResult A

abbrev pub has : String → List String → Bool
has x xs = any (λ y. y == x) xs

-- isCommunitySettingsRole
abbrev pub can_review : Auth → Bool
can_review auth = elim auth.role [ none ↦ false | some r ↦ r == "owner" || r == "admin" ]

-- requireCommunityMember
abbrev pub is_member : Auth → Bool
is_member auth = elim auth.role [ none ↦ false | some r ↦ not (r == "") ]

-- findMembers: those of the wanted that a page of the members lists
abbrev pub find_members : Auth → List String → List String
find_members auth wanted = filter (λ i. has i auth.members) wanted

-- the requesters to look up: of pending requests, and not the caller
unfoldable pub requesters : String → List RequestRecord → List String
requesters user stored =
    map (λ (r : RequestRecord). r.row.requester_user_id)
      (filter
        (λ (r : RequestRecord). is_pending r.row.status && not (r.row.requester_user_id == user))
        stored)

abbrev rows_of : List RequestRecord → List JoinRequest
rows_of stored = map (λ (r : RequestRecord). r.row) stored

-- Who asks.
pub record Caller : Type 0 where
  pub user_id : String
  pub auth : Auth

abbrev pub to_close : Caller → List RequestRecord → List Closure
to_close caller stored =
    closures_of
      (record {
        member_ids = caller.user_id ∷ find_members caller.auth (requesters caller.user_id stored);
        teams = caller.auth.teams;
      })
      (rows_of stored)

unfoldable pub can_see : Caller → JoinRequest → Bool
can_see caller r =
    if r.requester_user_id == caller.user_id
    then elim r.status [
      | Status.pending ↦ true
      | Status.approved ↦ false
      | Status.declined ↦ true
      | Status.withdrawn ↦ false
      | Status.closed ↦ true
    ]
    else if is_pending r.status
    then can_review caller.auth || has r.team_id caller.auth.own_team_ids
    else is_closed r.status && can_review caller.auth

-- `canEndorse` of presentTeamRequest
unfoldable pub can_endorse : Caller → JoinRequest → Bool
can_endorse caller r =
    is_pending r.status
    && has r.team_id caller.auth.own_team_ids
    && not (r.requester_user_id == caller.user_id)

-- What deciding leads to, with the members that it added to a team.
pub record Outcome : Type 0 where
  pub response : TeamResult RequestRecord
  pub db : TeamDb
  pub added : List (String × String)

abbrev pub turned_away : TeamError → TeamDb → Outcome
turned_away e db = record { response = refused e; db = db; added = [] }

module _ (order : List JoinRequest → List JoinRequest) (caller : Caller) (env : TeamEnv) where
  abbrev pub swept_list :
      String → List RequestRecord → List Closure → TeamDb → List RequestRecord × TeamDb
  swept_list organization stored [] db = (stored, db)
  swept_list organization stored (c ∷ closures) db =
      let after : TeamDb = close (c ∷ closures) env db in
      (list order organization caller.user_id env.now after, after)

  -- loadTeamCommunity: the requests, and the tables after the closures
  unfoldable pub load_team_community : String → TeamDb → List RequestRecord × TeamDb
  unfolding list requesters closures_of close
  load_team_community organization db =
      let stored : List RequestRecord = list order organization caller.user_id env.now db in
      swept_list organization stored (to_close caller stored) db

  abbrev seen : Option RequestRecord → TeamResult RequestRecord
  seen none = refused not_found
  seen (some r) = if can_see caller r.row then granted r else refused not_found

  -- what follows the read of the stored request
  abbrev pub loaded_for : String → Option JoinRequest → TeamDb → TeamResult RequestRecord × TeamDb
  loaded_for i none db = (refused not_found, db)
  loaded_for i (some r) db =
      if not (is_member caller.auth)
      then (refused forbidden, db)
      else let loaded : List RequestRecord × TeamDb = load_team_community r.organization_id db in
        (seen (find (λ (x : RequestRecord). x.row.id == i) loaded.0), loaded.1)

  -- loadTeamRequest
  unfoldable pub load_team_request : String → TeamDb → TeamResult RequestRecord × TeamDb
  unfolding load_team_community can_see request_by_id
  load_team_request i db = loaded_for i (request_by_id i db.requests) db

  -- refreshTeamRequest
  unfoldable pub refreshed : String → TeamDb → TeamResult RequestRecord
  unfolding get
  refreshed i db = elim (get i db) [ none ↦ refused not_found | some r ↦ granted r ]

  -- the end of a handler that settles
  unfoldable pub settled : String → Verdict → TeamDb → TeamResult RequestRecord × TeamDb
  unfolding settle refreshed
  settled i verdict db =
      let outcome : Bool × TeamDb = settle i verdict caller.user_id env db in
      if outcome.0 then (refreshed i outcome.1, outcome.1) else (refused conflict, outcome.1)

  module _ (meanwhile : List (TeamCall × TeamEnv)) where
    abbrev withdrawn_by : TeamResult RequestRecord → TeamDb → TeamResult RequestRecord × TeamDb
    withdrawn_by (refused e) db = (refused e, db)
    withdrawn_by (granted r) db =
        if not (r.row.requester_user_id == caller.user_id)
        then (refused forbidden, db)
        else if not (is_pending r.row.status)
        then (refused conflict, db)
        else settled r.row.id withdraw (run_calls meanwhile db)

    unfoldable pub withdraw_request : String → TeamDb → TeamResult RequestRecord × TeamDb
    unfolding load_team_request settled run_calls
    withdraw_request i db = let loaded = load_team_request i db in withdrawn_by loaded.0 loaded.1

    abbrev after_endorsement : String → Option TeamDb → TeamDb → TeamResult RequestRecord × TeamDb
    after_endorsement i none db = (refused internal, db)
    after_endorsement i (some after) db = (refreshed i after, after)

    abbrev endorsed_by : TeamResult RequestRecord → TeamDb → TeamResult RequestRecord × TeamDb
    endorsed_by (refused e) db = (refused e, db)
    endorsed_by (granted r) db =
        if not (is_pending r.row.status)
        then (refused conflict, db)
        else if not (can_endorse caller r.row)
        then (refused forbidden, db)
        else let now_db : TeamDb = run_calls meanwhile db in
          after_endorsement r.row.id (endorse r.row.id caller.user_id env now_db) now_db

    unfoldable pub endorse_request : String → TeamDb → TeamResult RequestRecord × TeamDb
    unfolding load_team_request refreshed run_calls endorse can_endorse
    endorse_request i db = let loaded = load_team_request i db in endorsed_by loaded.0 loaded.1

    abbrev pub settled_after : String → Verdict → TeamDb → List (String × String) → Outcome
    settled_after i verdict db added =
        let outcome : TeamResult RequestRecord × TeamDb = settled i verdict db in
        record { response = outcome.0; db = outcome.1; added = added }

    -- `add_member` says whether addTeamMember succeeds
    module _ (add_member : String → String → Bool) where
      abbrev pub decided_by : Bool → TeamResult RequestRecord → TeamDb → Outcome
      decided_by approving (refused e) db = turned_away e db
      decided_by approving (granted r) db =
          if not (can_review caller.auth)
          then turned_away forbidden db
          else if not (is_pending r.row.status)
          then turned_away conflict db
          else if not approving
          then settled_after r.row.id decline (run_calls meanwhile db) []
          else if not (add_member r.row.team_id r.row.requester_user_id)
          then turned_away internal (run_calls meanwhile db)
          else settled_after r.row.id approve (run_calls meanwhile db)
              ((r.row.team_id, r.row.requester_user_id) ∷ [])

      unfoldable pub decide_request : Bool → String → TeamDb → Outcome
      unfolding load_team_request settled run_calls
      decide_request approving i db =
          let loaded = load_team_request i db in decided_by approving loaded.0 loaded.1

-- requestToJoinTeam; the name of the requester is a parameter
module _ (order : List JoinRequest → List JoinRequest) (caller : Caller) (env : TeamEnv) where
  abbrev created : Option JoinRequest × TeamDb → TeamResult JoinRequest × TeamDb
  created (none, db) = (refused conflict, db)
  created (some r, db) = (granted r, db)

  abbrev asked_for :
      String → Option String → Option UpstreamTeam → TeamDb → TeamResult JoinRequest × TeamDb
  asked_for organization name none db = (refused bad_request, db)
  asked_for organization name (some team) db =
      if not (is_joinable_team (some team))
      then (refused bad_request, db)
      else if has team.id caller.auth.own_team_ids
      then (refused conflict, db)
      else created (
          create
            (record {
              organization_id = organization;
              team_id = team.id;
              team_name = team.name;
              team_areas = recognized_areas team.areas;
              requester_user_id = caller.user_id;
              requester_name = name;
            })
            env db)

  unfoldable pub request_to_join :
      String → String → Option String → TeamDb → TeamResult JoinRequest × TeamDb
  unfolding load_team_community is_joinable_team recognized_areas create
  request_to_join organization team name db =
      if not (is_member caller.auth)
      then (refused forbidden, db)
      else asked_for organization name (find (λ (t : UpstreamTeam). t.id == team) caller.auth.teams)
          (load_team_community order caller env organization db).1
