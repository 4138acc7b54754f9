-- ===== src/Proposals/Queries.antt =====
-- The conditions of `getProposals` in services/proposals.ts, as tests of a row. `ilike` is the
-- database's: a parameter.
use citynode_app.Prelude.{
  String, ℕ, ◌-◌, ◌≤◌, max, ◌≡◌, Bool, true, false, Option, none, some, List, arith, leb, ◌==◌,
  ◌||◌, ◌&&◌, not, any, trim,
}
use citynode_app.Proposals.Types.{Row, Env, ReviewStatus, ApplyStatus, RemoveStatus, iso}
use citynode_app.Proposals.Rules.{
  review_is, apply_is, remove_is, lifecycle_timeout_ms, apply_stalled,
}
use citynode_app.Proposals.Plans.{ReviewInput, Decision, write, plan_approve}
use citynode_app.Proposals.Lifecycle.{status_of, IsConsistent}

pub data LifecycleFilter : Type 0 where
  actionable needs_review : LifecycleFilter

pub record ProposalFilter : Type 0 where
  pub plugin_id : Option String
  pub entity_id : Option String
  pub review_status : Option ReviewStatus
  pub lifecycle_status : Option LifecycleFilter
  pub query : Option String
  pub private_plugin_ids : List String
  pub viewer_id : Option String
  pub is_admin : Bool

abbrev coalesce : Option ℕ → ℕ → ℕ
coalesce none t = t
coalesce (some a) t = a

-- applyNeedsAction; `now` is Clock.currentTimeMillis
unfoldable pub apply_needs_action : ℕ → Row → Bool
apply_needs_action now row =
    review_is row.review_status ReviewStatus.pending
    || (review_is row.review_status ReviewStatus.approved
        && apply_is row.apply_status ApplyStatus.failed)
    || (review_is row.review_status ReviewStatus.approved
        && apply_is row.apply_status ApplyStatus.applying
        && leb (max row.updated_at (coalesce row.apply_activity_at row.updated_at))
            (now - lifecycle_timeout_ms))

unfoldable pub lifecycle_matches : LifecycleFilter → ℕ → Row → Bool
lifecycle_matches needs_review now row = apply_needs_action now row
lifecycle_matches actionable now row =
    apply_needs_action now row
    || remove_is row.remove_status RemoveStatus.failed
    || (remove_is row.remove_status RemoveStatus.removing
        && leb row.updated_at (now - lifecycle_timeout_ms))

-- the condition on private plugins; an empty viewer is none
unfoldable pub visible : ProposalFilter → Row → Bool
visible input row =
    let is_private : Bool = any (λ p. row.plugin_id == p) input.private_plugin_ids in
    input.is_admin || not is_private || elim input.viewer_id [
      | none ↦ false
      | some viewer ↦ not (viewer == "") && is_private && row.created_by == viewer
    ]

-- a filter that is not given, or empty, does not restrict
abbrev pub text_matches : Option String → String → Bool
text_matches none s = true
text_matches (some wanted) s = wanted == "" || s == wanted

abbrev review_matches : Option ReviewStatus → ReviewStatus → Bool
review_matches none s = true
review_matches (some wanted) s = review_is s wanted

abbrev filter_matches : Option LifecycleFilter → ℕ → Row → Bool
filter_matches none now row = true
filter_matches (some f) now row = lifecycle_matches f now row

module _ (ilike : String → Row → Bool) where
  abbrev query_matches : Option String → Row → Bool
  query_matches none row = true
  query_matches (some q) row = q == "" || ilike (trim q) row

  -- whereClause
  unfoldable pub where_clause : ProposalFilter → ℕ → Row → Bool
  where_clause input now row =
      text_matches input.plugin_id row.plugin_id
      && text_matches input.entity_id row.entity_id
      && review_matches input.review_status row.review_status
      && filter_matches input.lifecycle_status now row
      && query_matches input.query row
      && visible input row

-- The stall rule in SQL is `applyStalled` at the same clock, once the clock has passed the timeout.
stall_mirrored :
    (now : ℕ) (row : Row)
    → lifecycle_timeout_ms ≤ now
    → (apply_is row.apply_status ApplyStatus.applying
        && leb
            (max row.updated_at (coalesce row.apply_activity_at row.updated_at))
            (now - lifecycle_timeout_ms))
      ≡ apply_stalled now row
unfolding apply_stalled
stall_mirrored now row h = ground arith

-- Does a plan write?
unfoldable pub writes : Decision → Bool
writes (write w) = true
writes _ = false

-- Of the proposals in one of the eight consistent statuses, the filter `needs_review` selects
-- exactly those on which `approve` at their version acts, at the same clock and once it has passed
-- the timeout.
pub needs_review-approvable :
    (input : ReviewInput) (env : Env) (row : Row)
    → lifecycle_timeout_ms ≤ env.guard_at
    → IsConsistent (status_of row)
    → input.expected_updated_at ≡ iso row.updated_at
    → lifecycle_matches needs_review env.guard_at row ≡ writes (plan_approve input env (some row))
unfolding lifecycle_matches apply_needs_action writes plan_approve status_of
needs_review-approvable input env row h k e = ground (arith, stall_mirrored env.guard_at row h)
