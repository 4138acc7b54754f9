-- ===== src/Dao/Policy.antt =====
-- Who may propose and approve, and how many votes a proposal needs: the roles of a policy in
-- ui/src/lib/sputnik-proposals.ts. A decimal text is the number that it denotes; a text that is none
-- is left out. A policy that is missing or unreadable is `none`.
use Prim.Native.String
use Prim.Native.Nat.{◌/◌}
use citynode_app.Prelude.{
  ℕ, zero, suc, ◌+◌, ◌*◌, String, Bool, true, false, Option, none, some, List, [], ◌∷◌, ◌++◌,
  if◌then◌else◌, ◌==◌, ◌&&◌, ◌||◌, not, any, filter, length, ltb, leb, eqb, or_else,
}
use citynode_app.Dao.Types.{
  SputnikProposal, RoleKind, everyone, group, member, Threshold, count, ratio, SputnikRole,
  SputnikPolicy,
}

unfoldable pub role_members : RoleKind → List String
role_members (group members) = members
role_members _ = []

abbrev pub grants : String → String → String → Bool
grants kind action permission =
    permission == (String.◌++◌ kind (String.◌++◌ ":" action))
    || permission == (String.◌++◌ kind ":*")
    || permission == (String.◌++◌ "*:" action)
    || permission == "*:*"

unfoldable pub permits : Option (List String) → String → String → Bool
permits none kind action = false
permits (some permissions) kind action = any (grants kind action) permissions

unfoldable pub member_threshold : RoleKind → Option ℕ
member_threshold (member weight) = weight
member_threshold _ = none

abbrev pub weighs : ℕ → Option ℕ → Bool
weighs threshold (some balance) = leb threshold balance
weighs threshold none = eqb threshold 0

abbrev pub weighs_or_listed : Option ℕ → RoleKind → String → Option ℕ → Bool
weighs_or_listed none kind account balance = any (λ m. m == account) (role_members kind)
weighs_or_listed (some threshold) kind account balance = weighs threshold balance

unfoldable pub in_role : String → Option ℕ → RoleKind → Bool
unfolding role_members member_threshold
in_role account balance everyone = true
in_role account balance kind = weighs_or_listed (member_threshold kind) kind account balance

unfoldable pub account_in_roles : List SputnikRole → String → Option ℕ → Bool
unfolding in_role
account_in_roles roles account balance =
    any (λ (r : SputnikRole). in_role account balance r.kind) roles

abbrev pub roles_with : String → String → Option SputnikPolicy → List SputnikRole
roles_with kind action none = []
roles_with kind action (some policy) =
    filter (λ (r : SputnikRole). permits r.permissions kind action) policy.roles

unfoldable pub approver_roles : Option SputnikPolicy → List SputnikRole
unfolding permits
approver_roles policy = roles_with "call" "VoteApprove" policy

unfoldable pub proposer_roles : Option SputnikPolicy → String → List SputnikRole
unfolding permits
proposer_roles policy kind = roles_with kind "AddProposal" policy

-- no account, or the empty one
abbrev pub account_given : Option String → Option String
account_given none = none
account_given (some account) = if account == "" then none else some account

abbrev pub among : List SputnikRole → Option ℕ → Option String → Bool
among roles balance none = false
among roles balance (some account) = account_in_roles roles account balance

unfoldable pub can_account_propose : Option SputnikPolicy → Option String → Option ℕ → Bool
unfolding account_in_roles proposer_roles
can_account_propose policy account balance =
    among (proposer_roles policy "call") balance (account_given account)

unfoldable pub can_account_approve : Option SputnikPolicy → Option String → Option ℕ → Bool
unfolding account_in_roles approver_roles
can_account_approve policy account balance =
    among (approver_roles policy) balance (account_given account)

abbrev pub asks_weight : Option ℕ → Bool
asks_weight none = false
asks_weight (some threshold) = ltb 0 threshold

abbrev pub is_given : Option String → Bool
is_given none = false
is_given (some account) = not (account == "")

unfoldable pub needs_delegation_balance : Option SputnikPolicy → Option String → Bool
unfolding can_account_propose member_threshold
needs_delegation_balance policy account =
    is_given account
    && not (can_account_propose policy account none)
    && any (λ (r : SputnikRole). asks_weight (member_threshold r.kind))
        (proposer_roles policy "call" ++ approver_roles policy)

pub data PermissionReason : Type 0 where
  allowed no_account no_policy no_permission bond_unavailable : PermissionReason

pub record ProposalPermission : Type 0 where
  pub can_propose : Bool
  pub reason : PermissionReason
  pub bond_yocto : Option ℕ

abbrev pub refused : PermissionReason → Option ℕ → ProposalPermission
refused reason bond = record { can_propose = false; reason = reason; bond_yocto = bond }

abbrev pub with_bond : Option ℕ → ProposalPermission
with_bond none = refused bond_unavailable none
with_bond (some bond) = record { can_propose = true; reason = allowed; bond_yocto = some bond }

abbrev pub permission_of : SputnikPolicy → Option String → String → Option ℕ → ProposalPermission
permission_of policy none kind balance = refused no_account policy.proposal_bond
permission_of policy (some account) kind balance =
    if account_in_roles (proposer_roles (some policy) kind) account balance
    then with_bond policy.proposal_bond
    else refused no_permission policy.proposal_bond

unfoldable pub proposal_permission :
    Option SputnikPolicy → Option String → String → Option ℕ → ProposalPermission
unfolding account_in_roles proposer_roles
proposal_permission none account kind balance = refused no_policy none
proposal_permission (some policy) account kind balance =
    permission_of policy (account_given account) kind balance

-- a ratio without a denominator gives no finite number
pub data Required : Type 0 where
  unresolved : Required
  votes : ℕ → Required
  infinite not_a_number : Required

pub record ApprovalThreshold : Type 0 where
  pub role : Option String
  pub required : Required
  pub approved : ℕ

-- `Math.floor((members * numerator) / denominator) + 1`
unfoldable pub ratio_votes : ℕ → ℕ → ℕ → Required
ratio_votes members numerator zero = if eqb (members * numerator) 0 then not_a_number else infinite
ratio_votes members numerator (suc d) = votes ((members * numerator) / suc d + 1)

unfoldable pub required_votes : ℕ → Option Threshold → Required
unfolding ratio_votes
required_votes members none = unresolved
required_votes members (some (count n)) = votes n
required_votes zero (some (ratio numerator denominator)) = unresolved
required_votes (suc members) (some (ratio numerator denominator)) =
    ratio_votes (suc members) numerator denominator

abbrev pub default_threshold_of : Option SputnikPolicy → Option Threshold
default_threshold_of none = none
default_threshold_of (some policy) = policy.default_threshold

-- `role.vote_policy?.call?.threshold ?? policy?.default_vote_policy?.threshold`
abbrev pub threshold_of : Option SputnikPolicy → SputnikRole → Option Threshold
threshold_of policy role = or_else role.call_threshold (default_threshold_of policy)

-- `vote_counts[name]?.[0] ?? 0`
unfoldable pub approvals_of : String → List (String × ℕ) → ℕ
approvals_of name [] = 0
approvals_of name ((role, approved) ∷ counts) =
    if role == name then approved else approvals_of name counts

abbrev pub approvals : String → Option SputnikProposal → ℕ
approvals name none = 0
approvals name (some p) = approvals_of name p.vote_counts

abbrev pub first_threshold :
    Option SputnikPolicy → Option SputnikProposal → List SputnikRole → ApprovalThreshold
first_threshold policy proposal [] = record { role = none; required = unresolved; approved = 0 }
first_threshold policy proposal (role ∷ roles) = record {
  role = some role.name;
  required = required_votes (length (role_members role.kind)) (threshold_of policy role);
  approved = approvals role.name proposal;
}

unfoldable pub approval_threshold :
    Option SputnikPolicy → Option SputnikProposal → ApprovalThreshold
unfolding approver_roles required_votes approvals_of role_members
approval_threshold policy proposal = first_threshold policy proposal (approver_roles policy)
