-- ===== src/Proposals/History.antt =====
-- The reads of services/proposals.ts about one applicant and about past reviews.
use citynode_app.Prelude.{
  String, ℕ, Bool, true, false, Option, none, some, List, [], ◌∷◌, ◌==◌, ◌&&◌, ◌||◌, any, filter,
  map,
}
use citynode_app.Proposals.Types.{Row, Submission, Action, AuditEntry, Db}
use citynode_app.Proposals.Service.{Proposal, load_proposal}
use citynode_app.Proposals.Pages.{Page, page}

-- `order` is the order of the instant of the last update, newest first.
unfoldable pub get_my_node_applications :
    (List Row → List Row) → ℕ → Db → String → List (Option Proposal)
unfolding load_proposal
get_my_node_applications order now db actor =
    map (λ (r : Row). load_proposal now db r.plugin_id r.entity_id)
      (order (filter (λ (r : Row). r.plugin_id == "node" && r.created_by == actor) db.proposals))

abbrev submitted_by_one_of : String → String → List String → Submission → Bool
submitted_by_one_of plugin entity names s =
    s.plugin_id == plugin && s.entity_id == entity && any (λ n. s.submitted_by == n) names

-- hasSubmitted
unfoldable pub get_my_submission : Db → String → String → List String → Bool
get_my_submission db plugin entity [] = false
get_my_submission db plugin entity (n ∷ names) =
    any (submitted_by_one_of plugin entity (n ∷ names)) db.submissions

-- `inArray(action, ["approved", "rejected"])`
abbrev is_review : Action → Bool
is_review Action.approved = true
is_review Action.rejected = true
is_review _ = false

abbrev in_plugin : Option String → String → Bool
in_plugin none s = true
in_plugin (some wanted) s = wanted == "" || s == wanted

abbrev review_entry : Option String → AuditEntry → Bool
review_entry plugin e = is_review e.action && in_plugin plugin e.plugin_id

pub record Review : Type 0 where
  pub entry : AuditEntry
  pub proposal : Proposal

-- entries whose proposal is no longer stored are left out
abbrev pub with_proposal : ℕ → Db → List AuditEntry → List Review
with_proposal now db [] = []
with_proposal now db (e ∷ entries) = elim (load_proposal now db e.plugin_id e.entity_id) [
  | none ↦ with_proposal now db entries
  | some p ↦ record { entry = e; proposal = p } ∷ with_proposal now db entries
]

unfoldable pub get_review_history :
    (List AuditEntry → List AuditEntry) → ℕ → Db → Option String → Option ℕ → Option ℕ → Page Review
unfolding page load_proposal
get_review_history order now db plugin limit cursor =
    let found : Page AuditEntry =
      page limit cursor (order (filter (review_entry plugin) db.audit)) in
    record {
      items = with_proposal now db found.items;
      total = found.total;
      has_more = found.has_more;
      next_cursor = found.next_cursor;
    }
