-- ===== src/Proposals/Readers.antt =====
-- The handlers of plugins/proposals/src/index.ts that read, and the events that a subscriber gets.
-- The order of pages, `ilike` and `toLowerCase` are parameters.
use mathlib.Core.Option
use citynode_app.Prelude.{
  String, ℕ, Bool, true, false, Option, none, some, List, [], ◌∷◌, ◌++◌, ◌==◌, not, ◌&&◌, ◌||◌, any,
  map, if◌then◌else◌,
}
use citynode_app.Proposals.Types.{Row, Submission, AuditEntry, Db, null, ReviewStatus}
use citynode_app.Proposals.Service.{Proposal}
use citynode_app.Proposals.Queries.{ProposalFilter, LifecycleFilter}
use citynode_app.Proposals.Pages.{
  Page, get_proposals, get_proposal_count, get_audit_log, get_submissions,
}
use citynode_app.Proposals.History.{
  Review, get_my_node_applications, get_my_submission, get_review_history,
}
use citynode_app.Proposals.Session.{
  User, Account, Session, Response, granted, refused, unauthorized, nonempty, primary_account,
  has_admin_role, require_auth, require_admin, viewer_id,
}
use citynode_app.Proposals.Router.{Event}

-- The input of getProposals without the scope, which the context gives.
pub record ListInput : Type 0 where
  pub plugin_id : Option String
  pub entity_id : Option String
  pub review_status : Option ReviewStatus
  pub lifecycle_status : Option LifecycleFilter
  pub query : Option String

-- `{ ...input, ...proposalScope(privatePluginIds, context) }`
unfoldable pub scoped : List String → Session → ListInput → ProposalFilter
unfolding viewer_id
scoped private_plugin_ids s input = record {
  plugin_id = input.plugin_id;
  entity_id = input.entity_id;
  review_status = input.review_status;
  lifecycle_status = input.lifecycle_status;
  query = input.query;
  private_plugin_ids = private_plugin_ids;
  viewer_id = viewer_id s;
  is_admin = has_admin_role s.user;
}

-- `{ ...proposal, payload: null, createdBy: "[hidden]" }`
unfoldable pub hidden : Proposal → Proposal
hidden p = record p { row = record p.row { payload = null; created_by = "[hidden]" } }

abbrev pub about : String → String → ListInput
about plugin entity = record {
  plugin_id = some plugin;
  entity_id = some entity;
  review_status = none;
  lifecycle_status = none;
  query = none;
}

abbrev pub is_empty {ℓ} : {A : Type ℓ} → List A → Bool
is_empty [] = true
is_empty (x ∷ xs) = false

module _ (private_plugin_ids : List String) (ilike : String → Row → Bool)
    (order : List Row → List Row) (now : ℕ) (db : Db) where
  unfoldable pub list_proposals : Session → ListInput → Option ℕ → Option ℕ → Page Proposal
  unfolding get_proposals hidden scoped
  list_proposals s input limit cursor =
      let found : Page Proposal =
        get_proposals ilike order now db (scoped private_plugin_ids s input) limit cursor in
      if has_admin_role s.user then found else record {
        items = map hidden found.items;
        total = found.total;
        has_more = found.has_more;
        next_cursor = found.next_cursor;
      }

  unfoldable pub can_read_proposal : Session → String → String → Bool
  unfolding get_proposals scoped
  can_read_proposal s plugin entity =
      if not (any (λ p. p == plugin) private_plugin_ids) || has_admin_role s.user
      then true
      else not (
          is_empty
            (get_proposals ilike order now db (scoped private_plugin_ids s (about plugin entity))
              (some 1) none).items)

  unfoldable pub count_proposals : Session → String → String → ℕ
  unfolding can_read_proposal get_proposal_count
  count_proposals s plugin entity =
      if can_read_proposal s plugin entity then get_proposal_count db plugin entity else 0

  -- a filter of `subscribe` that is not given, or empty, lets every event pass
  abbrev wanted_here : Option String → String → Bool
  wanted_here none s = true
  wanted_here (some wanted) s = wanted == "" || s == wanted

  -- does the loop of `subscribe` yield the event?
  unfoldable pub is_yielded : Session → Option String → Option String → Event → Bool
  unfolding can_read_proposal
  is_yielded s plugin entity event =
      wanted_here plugin event.plugin_id
      && wanted_here entity event.entity_id
      && can_read_proposal s event.plugin_id event.entity_id

abbrev with_user {ℓ} : {A : Type ℓ} → Response (User × String) → (String → Response A) → Response A
with_user (refused r) go = refused r
with_user (granted who) go = go who.1

abbrev no_entries : Page AuditEntry
no_entries = record { items = []; total = 0; has_more = false; next_cursor = none }

-- `filter(Boolean)` of texts that may be absent
abbrev given_texts : List (Option String) → List String
given_texts [] = []
given_texts (o ∷ os) = elim (nonempty o) [ none ↦ given_texts os | some s ↦ s ∷ given_texts os ]

-- `new Set`, in the order of the first occurrence
abbrev distinct_from : List String → List String → List String
distinct_from seen [] = []
distinct_from seen (x ∷ xs) =
    if any (λ y. y == x) seen then distinct_from seen xs else x ∷ distinct_from (x ∷ seen) xs

abbrev near_accounts : Session → List (Option String)
near_accounts s = primary_account s ∷ elim s.near [
  | none ↦ []
  | some n ↦ map (λ (a : Account). some a.account_id) n.linked_accounts
]

-- the names under which the caller may have submitted
unfoldable pub own_names : (String → String) → Session → List String
own_names to_lower_case s = distinct_from [] (
    given_texts
      (s.user_id ∷ near_accounts s ++ map (λ o. Option.map to_lower_case o) (near_accounts s)))

module _ (now : ℕ) (db : Db) where
  unfoldable pub my_submission : (String → String) → Session → String → String → Response Bool
  unfolding require_auth own_names get_my_submission
  my_submission to_lower_case s plugin entity =
      with_user (require_auth s)
        (λ id. granted (get_my_submission db plugin entity (own_names to_lower_case s)))

  unfoldable pub my_node_applications :
      (List Row → List Row) → Session → Response (List (Option Proposal))
  unfolding require_auth get_my_node_applications
  my_node_applications order s = with_user (require_auth s) (λ id.
      elim (nonempty (primary_account s)) [
        | none ↦ refused unauthorized
        | some account ↦ granted (get_my_node_applications order now db account)
      ])

  unfoldable pub review_history :
      (List AuditEntry → List AuditEntry)
      → Session
      → Option String
      → Option ℕ
      → Option ℕ
      → Response (Page Review)
  unfolding require_admin get_review_history
  review_history order s plugin limit cursor =
      with_user (require_admin s)
        (λ id. granted (get_review_history order now db plugin limit cursor))

  unfoldable pub submissions_of :
      (List Submission → List Submission)
      → Session
      → String
      → String
      → Option ℕ
      → Option ℕ
      → Response (Page Submission)
  unfolding require_admin get_submissions
  submissions_of order s plugin entity limit cursor =
      with_user (require_admin s)
        (λ id. granted (get_submissions order db plugin entity limit cursor))

  unfoldable pub audit_log :
      List String
      → (String → Row → Bool)
      → (List Row → List Row)
      → (List AuditEntry → List AuditEntry)
      → Session
      → String
      → String
      → Option ℕ
      → Option ℕ
      → Response (Page AuditEntry)
  unfolding require_admin can_read_proposal get_audit_log
  audit_log private_plugin_ids ilike order newest s plugin entity limit cursor =
      with_user (require_admin s) (λ id. granted (
        if can_read_proposal private_plugin_ids ilike order now db s plugin entity
        then get_audit_log newest db plugin entity limit cursor
        else no_entries))
