-- ===== src/Teams/Store.antt =====
-- The calls of api/src/services/team-join-requests.ts, with the keys of api/src/db/schema.ts: the
-- primary key of a request, one pending request of a requester for a team, and one endorsement of a
-- request by a user. The order of a list is the database's, a parameter.
use citynode_app.Prelude.{
  ℕ, ◌-◌, String, Bool, false, Option, none, some, List, [], ◌∷◌, ◌++◌, ◌==◌, ◌&&◌, ◌||◌, not, any,
  find, filter, map, leb, if◌then◌else◌,
}
use citynode_app.Teams.Types.{
  Status, ClosedReason, JoinRequest, Endorsement, TeamDb, TeamEnv, is_pending, is_closed,
  same_reason,
}

pub record NewRequest : Type 0 where
  pub organization_id : String
  pub team_id : String
  pub team_name : String
  pub team_areas : List String
  pub requester_user_id : String
  pub requester_name : Option String

-- the columns that the insert leaves out have the table's defaults
unfoldable pub new_request : NewRequest → TeamEnv → JoinRequest
new_request input env = record {
  id = env.fresh_id;
  organization_id = input.organization_id;
  team_id = input.team_id;
  team_name = input.team_name;
  team_areas = input.team_areas;
  requester_user_id = input.requester_user_id;
  requester_name = input.requester_name;
  status = Status.pending;
  decided_by_user_id = none;
  decided_at = none;
  closed_reason = none;
  created_at = env.now;
  updated_at = env.now;
}

-- two rows that a unique index does not let stand together
abbrev pub conflict : JoinRequest → JoinRequest → Bool
conflict a b =
    a.id == b.id
    || (is_pending a.status
        && is_pending b.status
        && a.team_id == b.team_id
        && a.requester_user_id == b.requester_user_id)

-- `none` is a unique violation, which the call answers with null
unfoldable pub create : NewRequest → TeamEnv → TeamDb → Option JoinRequest × TeamDb
unfolding new_request
create input env db =
    let new : JoinRequest = new_request input env in
    if any (conflict new) db.requests
    then (none, db)
    else (some new, record db { requests = db.requests ++ new ∷ [] })

-- update … set … where … and status = 'pending'
unfoldable pub update_pending :
    (JoinRequest → Bool) → (JoinRequest → JoinRequest) → List JoinRequest → List JoinRequest
update_pending chosen set [] = []
update_pending chosen set (r ∷ rows) =
    let rest = update_pending chosen set rows in
    if chosen r && is_pending r.status then set r ∷ rest else r ∷ rest

-- the statuses that settle takes
pub data Verdict : Type 0 where
  approve decline withdraw : Verdict

abbrev pub status_of : Verdict → Status
status_of approve = Status.approved
status_of decline = Status.declined
status_of withdraw = Status.withdrawn

unfoldable pub decided : Verdict → String → ℕ → JoinRequest → JoinRequest
decided verdict user now r = record r {
  status = status_of verdict;
  decided_by_user_id = some user;
  decided_at = some now;
  updated_at = now;
}

-- true iff a row was updated
unfoldable pub settle : String → Verdict → String → TeamEnv → TeamDb → Bool × TeamDb
unfolding update_pending decided
settle i verdict user env db = (
  any (λ (r : JoinRequest). r.id == i && is_pending r.status) db.requests,
  record db {
    requests =
        update_pending (λ (r : JoinRequest). r.id == i) (decided verdict user env.now) db.requests;
  },
)

pub record Closure : Type 0 where
  pub id : String
  pub reason : ClosedReason

unfoldable pub close_row : ClosedReason → ℕ → JoinRequest → JoinRequest
close_row reason now r = record r {
  status = Status.closed;
  closed_reason = some reason;
  decided_at = some now;
  updated_at = now;
}

-- `closures.filter(reason).map(id)` has the row's
abbrev pub closes : List Closure → ClosedReason → JoinRequest → Bool
closes closures reason r =
    any (λ (c : Closure). same_reason c.reason reason && c.id == r.id) closures

-- one update for each of the reasons
unfoldable pub close_each :
    List Closure → List ClosedReason → ℕ → List JoinRequest → List JoinRequest
unfolding update_pending close_row
close_each closures [] now rows = rows
close_each closures (reason ∷ reasons) now rows =
    close_each closures reasons now
      (update_pending (closes closures reason) (close_row reason now) rows)

-- `[...new Set(closures.map(reason))]`
abbrev pub distinct_reasons : List ClosedReason → List Closure → List ClosedReason
distinct_reasons seen [] = []
distinct_reasons seen (c ∷ closures) =
    if any (same_reason c.reason) seen
    then distinct_reasons seen closures
    else c.reason ∷ distinct_reasons (c.reason ∷ seen) closures

unfoldable pub close : List Closure → TeamEnv → TeamDb → TeamDb
unfolding close_each
close closures env db = record db {
  requests = close_each closures (distinct_reasons [] closures) env.now db.requests;
}

abbrev pub has_endorsed : String → String → Endorsement → Bool
has_endorsed i user e = e.request_id == i && e.endorser_user_id == user

-- insert … onConflictDoNothing; `none` is the violation of the foreign key
unfoldable pub endorse : String → String → TeamEnv → TeamDb → Option TeamDb
endorse i user env db =
    if not (any (λ (r : JoinRequest). r.id == i) db.requests)
    then none
    else if any (has_endorsed i user) db.endorsements
    then some db
    else some (record db {
      endorsements =
          db.endorsements
          ++ record { request_id = i; endorser_user_id = user; created_at = env.now } ∷ [];
    })

-- TeamJoinRequestRecord
pub record RequestRecord : Type 0 where
  pub row : JoinRequest
  pub endorser_user_ids : List String

unfoldable pub with_endorsements : List Endorsement → JoinRequest → RequestRecord
with_endorsements endorsements r = record {
  row = r;
  endorser_user_ids =
      map (λ (e : Endorsement). e.endorser_user_id)
        (filter (λ (e : Endorsement). e.request_id == r.id) endorsements);
}

unfoldable pub request_by_id : String → List JoinRequest → Option JoinRequest
request_by_id i rows = find (λ (r : JoinRequest). r.id == i) rows

abbrev or_null : List Endorsement → Option JoinRequest → Option RequestRecord
or_null endorsements none = none
or_null endorsements (some r) = some (with_endorsements endorsements r)

unfoldable pub get : String → TeamDb → Option RequestRecord
unfolding request_by_id with_endorsements
get i db = or_null db.endorsements (request_by_id i db.requests)

abbrev pub closed_request_visible_ms : ℕ
closed_request_visible_ms = 2592000000

-- decided no earlier than that long ago; a row that was not decided has no instant
abbrev is_recent : ℕ → Option ℕ → Bool
is_recent now none = false
is_recent now (some at) = leb (now - closed_request_visible_ms) at

unfoldable pub is_listed : String → String → ℕ → JoinRequest → Bool
is_listed organization viewer now r =
    r.organization_id == organization
    && (is_pending r.status
        || (is_closed r.status && is_recent now r.decided_at)
        || r.requester_user_id == viewer)

unfoldable pub list :
    (List JoinRequest → List JoinRequest) → String → String → ℕ → TeamDb → List RequestRecord
unfolding is_listed with_endorsements
list order organization viewer now db =
    map (with_endorsements db.endorsements)
      (order (filter (is_listed organization viewer now) db.requests))
