-- ===== src/Teams/Policy.antt =====
-- api/src/team-join-policy.ts: which teams take requests, and when a pending one is closed.
use citynode_app.Prelude.{
  String, Bool, true, false, not, Option, none, some, List, [], ◌∷◌, ◌==◌, any, find, filter,
  if◌then◌else◌,
}
use citynode_app.Teams.Types.{
  ClosedReason, requester_left, team_deleted, team_not_joinable, JoinRequest, is_pending,
}
use citynode_app.Teams.Store.{Closure}

pub record UpstreamTeam : Type 0 where
  pub id : String
  pub name : String
  pub areas : List String

-- FEATURE_AREAS
abbrev feature_areas : List String
feature_areas = "node-operations" ∷ "finance" ∷ "stake" ∷ "events" ∷ []

abbrev is_feature_area : String → Bool
is_feature_area area = any (λ a. a == area) feature_areas

unfoldable pub recognized_areas : List String → List String
recognized_areas areas = filter is_feature_area areas

abbrev is_some_area : List String → Bool
is_some_area [] = false
is_some_area (a ∷ areas) = true

unfoldable pub is_joinable_team : Option UpstreamTeam → Bool
unfolding recognized_areas
is_joinable_team none = false
is_joinable_team (some team) = is_some_area (recognized_areas team.areas)

-- the members and the teams of the community, the teams by identifier
pub record Community : Type 0 where
  pub member_ids : List String
  pub teams : List UpstreamTeam

abbrev team_reason : Option UpstreamTeam → Option ClosedReason
team_reason none = some team_deleted
team_reason (some team) = if is_joinable_team (some team) then none else some team_not_joinable

unfoldable pub closure_reason : JoinRequest → Community → Option ClosedReason
unfolding is_joinable_team
closure_reason r community =
    if not (any (λ m. m == r.requester_user_id) community.member_ids)
    then some requester_left
    else team_reason (find (λ (t : UpstreamTeam). t.id == r.team_id) community.teams)

-- a row that is pending and has a reason adds a closure
abbrev pub closure_for : String → Bool → Option ClosedReason → List Closure → List Closure
closure_for i true (some reason) closures = record { id = i; reason = reason } ∷ closures
closure_for i true none closures = closures
closure_for i false o closures = closures

-- the closures that loadTeamCommunity makes of the stored requests
unfoldable pub closures_of : Community → List JoinRequest → List Closure
closures_of community [] = []
closures_of community (r ∷ rows) =
    closure_for r.id (is_pending r.status) (closure_reason r community) (closures_of community rows)
