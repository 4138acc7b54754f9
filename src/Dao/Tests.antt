-- ===== src/Dao/Tests.antt =====
-- A DAO with a few proposals and one role: the theorems at concrete inputs.

use citynode_app.Prelude.{
  ℕ, ◌≡◌, refl, ◌+◌, Option, none, some, List, [], ◌∷◌, filter, length, arith,
}
use citynode_app.Dao.Types.{SputnikProposal, other, SputnikRole, group, ratio, SputnikPolicy}
use citynode_app.Dao.Reading.{fetched, follow, read_page, read_since}
use citynode_app.Dao.Order.{between, sorted_between}
use citynode_app.Dao.Status.{read_open}
use citynode_app.Dao.Open.{IsChronological, IsOpenRead, read_open-IsOpenRead}
use citynode_app.Dao.Walk.{IsView, follow_pages}
use citynode_app.Dao.Policy.{approver_roles, role_members, approval_threshold, votes}
use citynode_app.Dao.Majority.{IsMajority, approval_threshold-IsMajority}

abbrev proposal_of : ℕ → SputnikProposal
proposal_of i = record {
  id = i;
  proposer = "alice.near";
  description = "Stake";
  kind = other;
  status = "InProgress";
  vote_counts = ("council", 1) ∷ [];
  submission_time = i;
}

abbrev stored : List SputnikProposal
stored = proposal_of 0 ∷ proposal_of 1 ∷ proposal_of 9 ∷ []

abbrev stored_view : ℕ → ℕ → Option (List SputnikProposal)
stored_view from limit = some (filter (between from (from + limit)) stored)

stored_view-IsView : IsView stored_view stored
stored_view-IsView from limit = refl

follow_pages_example : follow stored_view 11 2 10 ≡ some (sorted_between 0 10 stored)
follow_pages_example =
    follow_pages stored_view stored stored_view-IsView 2 (omega arith) 11 10 (omega arith)

all_pages : follow stored_view 11 2 10 ≡ some (proposal_of 9 ∷ proposal_of 1 ∷ proposal_of 0 ∷ [])
unfolding follow read_page
all_pages = refl

abbrev council : SputnikRole
council = record {
  name = "council";
  kind = group ("alice.near" ∷ "bob.near" ∷ "carol.near" ∷ []);
  permissions = some ("call:VoteApprove" ∷ []);
  call_threshold = none;
}

abbrev half : SputnikPolicy
half = record {
  roles = council ∷ [];
  default_threshold = some (ratio 1 2);
  proposal_period = none;
  proposal_bond = none;
}

only_council : approver_roles (some half) ≡ council ∷ []
unfolding approver_roles
only_council = refl

three_members : length (role_members council.kind) ≡ 3
unfolding role_members
three_members = refl

approval_threshold-IsMajority_example :
    IsMajority
      (length (role_members council.kind))
      1
      2
      (approval_threshold (some half) none).required
approval_threshold-IsMajority_example =
    approval_threshold-IsMajority (some half) none council [] 1 2 only_council refl
      (omega (arith, three_members)) (omega arith)

two_of_three : (approval_threshold (some half) none).required ≡ votes 2
unfolding approval_threshold
two_of_three = refl

-- The batches come newest first; the last of them holds the older proposals.
read_back :
    read_since stored_view 10 5 2 100 ≡ fetched (proposal_of 9 ∷ proposal_of 1 ∷ proposal_of 0 ∷ [])
unfolding read_since
read_back = refl

stored-IsChronological : IsChronological stored
stored-IsChronological = (
  (λ h. h, (λ h. h, (λ h. h, tt))),
  ((λ h. h, (λ h. h, (λ h. h, tt))), ((λ h. h, (λ h. h, (λ h. h, tt))), tt)),
)

-- A policy whose proposals are open for ten nanoseconds.
abbrev short : SputnikPolicy
short = record half { proposal_period = some 10 }

read_open_example : IsOpenRead (some short) 15 10 stored (read_open stored_view 10 (some short) 15)
read_open_example =
    read_open-IsOpenRead stored_view stored 10 (some short) 15 stored_view-IsView
      stored-IsChronological

one_open : read_open stored_view 10 (some short) 15 ≡ fetched (proposal_of 9 ∷ [])
unfolding read_open
one_open = refl
