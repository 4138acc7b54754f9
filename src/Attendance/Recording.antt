-- ===== src/Attendance/Recording.antt =====
-- recordCode of api/src/services/attendance.ts: the check-ins of one code, unless its count is the one
-- of the last time.
use citynode_app.Prelude.{
  ℕ, String, Bool, true, false, Option, none, some, List, map, if◌then◌else◌, ◌==◌, ◌&&◌, ◌||◌, not,
  find, eqb,
}
use citynode_app.Geography.Tree.{member}
use citynode_app.Attendance.Types.{
  CheckIn, Checkpoint, UpstreamCode, Join, CodeStatus, Upstream, Step, answer, fail, database,
  upsert, upsert_each, repeats,
}

pub record Community : Type 0 where
  pub organization_id : String
  pub community_name : String
  pub known : List String

abbrev pub same_check_in : CheckIn → CheckIn → Bool
same_check_in a b =
    a.organization_id == b.organization_id && a.code_id == b.code_id && a.user_id == b.user_id

-- `excluded` is the new row
abbrev pub merge_check_in : CheckIn → CheckIn → CheckIn
merge_check_in old new = record old {
  event_id = new.event_id;
  event_name = new.event_name;
  checked_in_at = new.checked_in_at;
  classified = old.classified || new.classified;
}

abbrev pub same_checkpoint : Checkpoint → Checkpoint → Bool
same_checkpoint a b = a.organization_id == b.organization_id && a.code_id == b.code_id

abbrev pub merge_checkpoint : Checkpoint → Checkpoint → Checkpoint
merge_checkpoint old new = record old {
  used_count = new.used_count;
  reconciled_at = new.reconciled_at;
}

-- `!!eventId && known.has(eventId)`
abbrev pub is_known : List String → Option String → Bool
is_known known none = false
is_known known (some event) = not (event == "") && member event known

abbrev pub check_in_of : Community → UpstreamCode → CodeStatus → ℕ → Join → CheckIn
check_in_of community code status now join = record {
  organization_id = community.organization_id;
  code_id = code.id;
  user_id = join.user_id;
  event_id = status.event_id;
  event_name = status.event_name;
  community_name = community.community_name;
  classified = is_known community.known status.event_id;
  checked_in_at = join.created_at;
  recorded_at = now;
}

abbrev pub checkpoint_of : Community → UpstreamCode → ℕ → Checkpoint
checkpoint_of community code now = record {
  organization_id = community.organization_id;
  code_id = code.id;
  used_count = code.used_count;
  reconciled_at = now;
}

-- the transaction; a code that lists a user twice makes the insert fail
unfoldable pub store_status : Community → UpstreamCode → CodeStatus → ℕ → Step Bool
unfolding upsert upsert_each repeats
store_status community code status now db =
    let rows = map (check_in_of community code status now) status.joined in
    if repeats same_check_in rows
    then fail database db
    else answer true (record db {
      check_ins = upsert_each same_check_in merge_check_in rows db.check_ins;
      checkpoints =
          upsert same_checkpoint merge_checkpoint (checkpoint_of community code now) db.checkpoints;
    })

abbrev pub store_if_read : Community → UpstreamCode → ℕ → Option CodeStatus → Step Bool
store_if_read community code now none db = answer false db
store_if_read community code now (some status) db = store_status community code status now db

abbrev pub is_counted : UpstreamCode → Option Checkpoint → Bool
is_counted code none = false
is_counted code (some checkpoint) = eqb checkpoint.used_count code.used_count

unfoldable pub record_code : Upstream → Community → ℕ → UpstreamCode → Step Bool
unfolding store_status
record_code upstream community now code db =
    if is_counted code
      (find (λ c. same_checkpoint c (checkpoint_of community code now)) db.checkpoints)
    then answer true db
    else store_if_read community code now (upstream.code_status code.id) db
