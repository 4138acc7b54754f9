-- ===== src/Proposals/Lifecycle.antt =====
-- The lifecycle of a proposal, as an automaton over its three statuses that the audit log drives.
use citynode_app.Proposals.Changes.{
  reopen, mark_removed, mark_remove_failed, mark_apply_failed, mark_applied, reject, resubmit,
  Change, approve, revoke, set, action_of,
}
use citynode_app.Prelude.{
  ◌||◌, ◌&&◌, not, Bool, ℕ, String, ◌≡◌, refl, true, false, Option, none, some, List, [], ◌∷◌, ◌++◌,
  arith, ◌==◌, if◌then◌else◌,
}
use mathlib.Core.List.{foldl, foldl-append}
use citynode_app.Proposals.Rules.{review_is, apply_is, remove_is}
use citynode_app.Proposals.Types.{ReviewStatus, ApplyStatus, RemoveStatus, Row, Action, AuditEntry}

pub record Status : Type 0 where
  pub review : ReviewStatus
  pub apply : ApplyStatus
  pub remove : RemoveStatus

unfoldable pub status_of : Row → Status
status_of row = record {
  review = row.review_status;
  apply = row.apply_status;
  remove = row.remove_status;
}

-- A specification of `Change`: the status after an audited action.
unfoldable pub act : Action → Status → Status
act Action.proposed s = record {
  review = ReviewStatus.pending;
  apply = ApplyStatus.not_started;
  remove = RemoveStatus.not_started;
}
act Action.approved s = record s { review = ReviewStatus.approved; apply = ApplyStatus.applying }
act Action.apply_retried s = record s {
  review = ReviewStatus.approved;
  apply = ApplyStatus.applying;
}
act Action.rejected s = record s { review = ReviewStatus.rejected; apply = ApplyStatus.not_started }
act Action.reopened s = record s { review = ReviewStatus.pending }
act Action.approval_revocation_started s = record s { remove = RemoveStatus.removing }
act Action.removal_retried s = record s { remove = RemoveStatus.removing }
act Action.applied s = record s { apply = ApplyStatus.applied }
act Action.apply_failed s = record s { apply = ApplyStatus.failed }
act Action.apply_step_recorded s = s
act Action.approval_revoked s = record s {
  review = ReviewStatus.removed;
  remove = RemoveStatus.removed;
}
act Action.remove_failed s = record s { remove = RemoveStatus.failed }

abbrev pub initial : Status
initial = record {
  review = ReviewStatus.pending;
  apply = ApplyStatus.not_started;
  remove = RemoveStatus.not_started;
}

-- The first `proposed` makes a proposal; no other action does.
unfoldable pub advance : Option Status → Action → Option Status
unfolding act
advance (some s) a = some (act a s)
advance none Action.proposed = some initial
advance none _ = none

unfoldable pub replay : List Action → Option Status
unfolding advance
replay actions = foldl advance none actions

-- the actions that the audit log holds of a proposal, in order
unfoldable pub trail : String → List AuditEntry → List Action
trail i [] = []
trail i (e ∷ log) = if e.proposal_id == i then e.action ∷ trail i log else trail i log

pub replay-append :
    (actions : List Action) (a : Action) → replay (actions ++ a ∷ []) ≡ advance (replay actions) a
unfolding replay
replay-append actions a = rw foldl-append

pub trail-append :
    (i : String) (log : List AuditEntry) (e : AuditEntry)
    → trail i (log ++ e ∷ [])
      ≡ (if e.proposal_id == i then trail i log ++ e.action ∷ [] else trail i log)
unfolding trail
trail-append i [] e = refl
trail-append i (f ∷ log) e = ground (arith, trail-append i log e)

-- Every update takes the status to where its audited action takes it.
pub status_of-set :
    (c : Change) (now : ℕ) (row : Row)
    → status_of (set c now row) ≡ act (action_of c) (status_of row)
unfolding set status_of act action_of
status_of-set (approve true) now row = refl
status_of-set (approve false) now row = refl
status_of-set (revoke true) now row = refl
status_of-set (revoke false) now row = refl
status_of-set _ now row = refl

-- Eight of the 64 combinations of statuses occur.
abbrev pub fits : ReviewStatus → ApplyStatus → RemoveStatus → Bool
fits ReviewStatus.pending ApplyStatus.not_started RemoveStatus.not_started = true
fits ReviewStatus.rejected ApplyStatus.not_started RemoveStatus.not_started = true
fits ReviewStatus.approved ApplyStatus.applying RemoveStatus.not_started = true
fits ReviewStatus.approved ApplyStatus.failed RemoveStatus.not_started = true
fits ReviewStatus.approved ApplyStatus.applied RemoveStatus.not_started = true
fits ReviewStatus.approved ApplyStatus.applied RemoveStatus.removing = true
fits ReviewStatus.approved ApplyStatus.applied RemoveStatus.failed = true
fits ReviewStatus.removed ApplyStatus.applied RemoveStatus.removed = true
fits _ _ _ = false

abbrev pub IsConsistent : Status → Type 0
IsConsistent s = fits s.review s.apply s.remove ≡ true

-- Where the lifecycle lets a change happen.
unfoldable pub allowed : Change → Status → Bool
allowed (resubmit _) s =
    not (apply_is s.apply ApplyStatus.applying) && not (remove_is s.remove RemoveStatus.removing)
allowed (approve _) s =
    not (apply_is s.apply ApplyStatus.applied)
    && (review_is s.review ReviewStatus.pending || review_is s.review ReviewStatus.approved)
allowed (reject _) s =
    not (apply_is s.apply ApplyStatus.applying)
    && not (apply_is s.apply ApplyStatus.applied && review_is s.review ReviewStatus.approved)
    && (review_is s.review ReviewStatus.pending || review_is s.review ReviewStatus.approved)
allowed reopen s = review_is s.review ReviewStatus.rejected
allowed (revoke _) s =
    review_is s.review ReviewStatus.approved
    && apply_is s.apply ApplyStatus.applied
    && not (remove_is s.remove RemoveStatus.removed)
allowed (mark_applied _) s = apply_is s.apply ApplyStatus.applying
allowed (mark_apply_failed _) s = apply_is s.apply ApplyStatus.applying
allowed mark_removed s = remove_is s.remove RemoveStatus.removing
allowed (mark_remove_failed _) s = remove_is s.remove RemoveStatus.removing

pub allowed-IsConsistent :
    (c : Change) (s : Status)
    → IsConsistent s
    → allowed c s ≡ true
    → IsConsistent (act (action_of c) s)
unfolding allowed act action_of
allowed-IsConsistent (approve true) s k a = ground arith
allowed-IsConsistent (approve false) s k a = ground arith
allowed-IsConsistent (revoke true) s k a = ground arith
allowed-IsConsistent (revoke false) s k a = ground arith
allowed-IsConsistent _ s k a = ground arith
