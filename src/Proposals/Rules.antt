-- ===== src/Proposals/Rules.antt =====
-- The helpers at the top of plugins/proposals/src/services/proposals.ts.
use citynode_app.Prelude.{
  ℕ, ◌+◌, ◌-◌, max, String, Bool, true, false, Option, none, some, ◌==◌, not, eqb, leb, ◌||◌, ◌&&◌,
  or_else, if◌then◌else◌,
}
use citynode_app.Proposals.Types.{
  ReviewStatus, ApplyStatus, RemoveStatus, StepStatus, IsoText, iso, other_text, Json, null, bool,
  num, str, obj, Fields, end, field, Row, Actor,
}

abbrev pub review_is : ReviewStatus → ReviewStatus → Bool
review_is ReviewStatus.pending ReviewStatus.pending = true
review_is ReviewStatus.approved ReviewStatus.approved = true
review_is ReviewStatus.rejected ReviewStatus.rejected = true
review_is ReviewStatus.removed ReviewStatus.removed = true
review_is _ _ = false

abbrev pub apply_is : ApplyStatus → ApplyStatus → Bool
apply_is ApplyStatus.not_started ApplyStatus.not_started = true
apply_is ApplyStatus.applying ApplyStatus.applying = true
apply_is ApplyStatus.applied ApplyStatus.applied = true
apply_is ApplyStatus.failed ApplyStatus.failed = true
apply_is _ _ = false

abbrev pub remove_is : RemoveStatus → RemoveStatus → Bool
remove_is RemoveStatus.not_started RemoveStatus.not_started = true
remove_is RemoveStatus.removing RemoveStatus.removing = true
remove_is RemoveStatus.removed RemoveStatus.removed = true
remove_is RemoveStatus.failed RemoveStatus.failed = true
remove_is _ _ = false

abbrev pub step_is : StepStatus → StepStatus → Bool
step_is StepStatus.started StepStatus.started = true
step_is StepStatus.waiting StepStatus.waiting = true
step_is StepStatus.completed StepStatus.completed = true
step_is _ _ = false

-- `toIsoString(t) === text`
abbrev pub is_iso_of : ℕ → IsoText → Bool
is_iso_of t (iso n) = eqb t n
is_iso_of t (other_text s) = false

abbrev pub lifecycle_timeout_ms : ℕ
lifecycle_timeout_ms = 300000

abbrev previous_time : Option ℕ → ℕ
previous_time none = 0
previous_time (some t) = t

unfoldable pub next_timestamp : ℕ → Option ℕ → ℕ
next_timestamp now previous = max now (previous_time previous + 1)

-- the difference is an integer; a negative one is below the timeout, as 0 is
unfoldable pub lifecycle_timed_out : ℕ → ℕ → Bool
lifecycle_timed_out now updated_at = leb lifecycle_timeout_ms (now - updated_at)

unfoldable pub apply_stalled : ℕ → Row → Bool
unfolding lifecycle_timed_out
apply_stalled now row =
    apply_is row.apply_status ApplyStatus.applying
    && lifecycle_timed_out now (max row.updated_at (previous_time row.apply_activity_at))

unfoldable pub actor_label : Option Actor → Option String → Option String
actor_label none source = or_else source none
actor_label (some user) source = or_else source user.name

unfoldable pub resubmission_error : ReviewStatus → RemoveStatus → String
resubmission_error review remove =
    if review_is review ReviewStatus.removed || remove_is remove RemoveStatus.removed
    then "Removed proposals cannot be resubmitted"
    else if review_is review ReviewStatus.pending
    then "This proposal is already pending"
    else if review_is review ReviewStatus.approved
    then "This proposal is already approved"
    else "This proposal cannot be resubmitted"

-- JavaScript's truth value of a parsed text
abbrev pub truthy : Json → Bool
truthy null = false
truthy (bool b) = b
truthy (num t) = not (t == "0")
truthy (str s) = not (s == "")
truthy _ = true

-- `===` between two values that were parsed apart: objects are never the same
abbrev pub strict_eq : Json → Json → Bool
strict_eq null null = true
strict_eq (bool true) (bool b) = b
strict_eq (bool false) (bool b) = not b
strict_eq (num a) (num b) = a == b
strict_eq (str a) (str b) = a == b
strict_eq _ _ = false

unfoldable pub property : String → Fields → Json
property name end = null
property name (field k v fs) = if k == name then v else property name fs

-- `value && typeof value === "object" && "orgId" in value ? value.orgId : null`
unfoldable pub org_id_of : Json → Json
unfolding property
org_id_of (obj fs) = property "orgId" fs
org_id_of _ = null
