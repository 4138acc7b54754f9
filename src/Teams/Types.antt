-- ===== src/Teams/Types.antt =====
-- The tables of requests to join a team, in api/src/db/schema.ts.
use citynode_app.Prelude.{ℕ, String, Bool, true, false, Option, List}

pub data Status : Type 0 where
  pending approved declined withdrawn closed : Status

pub data ClosedReason : Type 0 where
  requester_left team_deleted team_not_joinable : ClosedReason

-- team_join_requests
pub record JoinRequest : Type 0 where
  pub id : String
  pub organization_id : String
  pub team_id : String
  pub team_name : String
  pub team_areas : List String
  pub requester_user_id : String
  pub requester_name : Option String
  pub status : Status
  pub decided_by_user_id : Option String
  pub decided_at : Option ℕ
  pub closed_reason : Option ClosedReason
  pub created_at : ℕ
  pub updated_at : ℕ

-- team_join_endorsements
pub record Endorsement : Type 0 where
  pub request_id : String
  pub endorser_user_id : String
  pub created_at : ℕ

pub record TeamDb : Type 0 where
  pub requests : List JoinRequest
  pub endorsements : List Endorsement

-- What a call takes from the clock and the database's defaults.
pub record TeamEnv : Type 0 where
  pub now : ℕ
  pub fresh_id : String

abbrev pub is_pending : Status → Bool
is_pending Status.pending = true
is_pending _ = false

abbrev pub is_closed : Status → Bool
is_closed Status.closed = true
is_closed _ = false

abbrev pub same_reason : ClosedReason → ClosedReason → Bool
same_reason requester_left requester_left = true
same_reason team_deleted team_deleted = true
same_reason team_not_joinable team_not_joinable = true
same_reason _ _ = false
