-- ===== src/Dao/Status.antt =====
-- The status of a proposal as it is shown, and the proposal that carries out a plan, in
-- ui/src/lib/sputnik-proposals.ts. Instants are numbers of nanoseconds.
use citynode_app.Prelude.{
  ℕ, ◌+◌, ◌-◌, String, Bool, true, false, Option, none, some, List, [], ◌∷◌, if◌then◌else◌, ◌==◌,
  ◌&&◌, ◌||◌, not, any, find, filter, leb,
}
use citynode_app.Geography.Tree.{member}
use citynode_app.Dao.Reading.{
  Fetched, fetched, call_failed, range_not_read, out_of_fuel, read_since,
}
use citynode_app.Dao.Types.{
  FunctionCallAction, ProposalKind, function_call, transfer, other, SputnikProposal, SputnikPolicy,
}

unfoldable pub is_pending_proposal : SputnikProposal → Bool
is_pending_proposal p = p.status == "InProgress"

abbrev pub period_of : Option SputnikPolicy → Option ℕ
period_of none = none
period_of (some policy) = policy.proposal_period

abbrev pub within : Option ℕ → ℕ → ℕ → Bool
within none submitted now = true
within (some period) submitted now = leb now (submitted + period)

unfoldable pub is_open_proposal : SputnikProposal → Option SputnikPolicy → ℕ → Bool
is_open_proposal p policy now =
    (p.status == "InProgress" || p.status == "Failed")
    && within (period_of policy) p.submission_time now

unfoldable pub displayed_status : SputnikProposal → Option SputnikPolicy → Option ℕ → String
unfolding is_open_proposal
displayed_status p policy none = p.status
displayed_status p policy (some now) =
    if not (p.status == "InProgress")
    then p.status
    else if is_open_proposal p policy now
    then p.status
    else "Expired"

-- the instant back to which an open proposal may have been submitted; no proposal is older than 0
abbrev pub open_since : Option ℕ → ℕ → ℕ
open_since none now = 0
open_since (some period) now = now - period

abbrev pub map_fetched : (List SputnikProposal → List SputnikProposal) → Fetched → Fetched
map_fetched f (fetched proposals) = fetched (f proposals)
map_fetched f call_failed = call_failed
map_fetched f range_not_read = range_not_read
map_fetched f out_of_fuel = out_of_fuel

-- readOpenDaoProposals, with the pages and the bound of readDaoProposalsSince
unfoldable pub read_open :
    (ℕ → ℕ → Option (List SputnikProposal)) → ℕ → Option SputnikPolicy → ℕ → Fetched
unfolding read_since is_open_proposal
read_open view last policy now =
    map_fetched (filter (λ p. is_open_proposal p policy now))
      (read_since view last (open_since (period_of policy) now) 100 2000)

pub data DaoPlan : Type 0 where
  call_plan : String → String → DaoPlan
  transfer_plan : String → DaoPlan

-- ANY_RECEIVER
abbrev pub any_receiver : String
any_receiver = "*"

unfoldable pub calls_method : ProposalKind → String → List String → Bool
calls_method (function_call receiver actions) receiver_id methods =
    (receiver_id == any_receiver || receiver == receiver_id)
    && any (λ (a : FunctionCallAction). member a.method_name methods) actions
calls_method (transfer token receiver amount) receiver_id methods = false
calls_method other receiver_id methods = false

abbrev pub transfers_to : ProposalKind → String → Bool
transfers_to (transfer token receiver amount) receiver_id = receiver == receiver_id
transfers_to (function_call receiver actions) receiver_id = false
transfers_to other receiver_id = false

unfoldable pub matches_plan : SputnikProposal → DaoPlan → Bool
unfolding calls_method
matches_plan p (transfer_plan receiver) = transfers_to p.kind receiver
matches_plan p (call_plan receiver method) = calls_method p.kind receiver (method ∷ [])

unfoldable pub find_pending : List SputnikProposal → DaoPlan → Option SputnikProposal
unfolding is_pending_proposal matches_plan
find_pending proposals plan = find (λ p. is_pending_proposal p && matches_plan p plan) proposals
