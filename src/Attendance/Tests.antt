-- ===== src/Attendance/Tests.antt =====
-- A community with one event and one code: the theorem at a concrete input.
use citynode_app.Prelude.{ℕ, ◌≡◌, refl, String, Bool, true, false, Option, none, some, [], ◌∷◌}
use citynode_app.Attendance.Types.{CheckIn, AttendanceDb, listed, Upstream}
use citynode_app.Attendance.Reconcile.{ReconcileInput, reconcile_each}
use citynode_app.Attendance.History.{OwnCommunity, attended_as, history}
use citynode_app.Attendance.Earliest.{IsAttendance, rows_of, history-IsAttendance}
use citynode_app.Attendance.Kept.{stored_as, IsKept}
use citynode_app.Attendance.Reconciled.{reconcile_each-IsKept}

abbrev no_dates : String → Option ℕ
no_dates text = none

abbrev alice : CheckIn
alice = record {
  organization_id = "o1";
  code_id = "c1";
  user_id = "alice";
  event_id = some "e1";
  event_name = "Meetup";
  community_name = "Porto";
  classified = true;
  checked_in_at = 10;
  recorded_at = 20;
}

abbrev code_service : Upstream
code_service = record {
  list_codes = λ event. listed (record { id = "c1"; event_id = some "e1"; used_count = 2 } ∷ []);
  code_status = λ code. some (record {
    event_id = some "e2";
    event_name = "Renamed";
    joined =
        record { user_id = "alice"; created_at = 11 }
        ∷ record { user_id = "bob"; created_at = 12 }
        ∷ [];
  });
}

abbrev later_call : ReconcileInput
later_call = record {
  organization_id = "o1";
  community_name = "Porto Norte";
  events = record { id = "e1"; title = "Meetup"; starts_at = none } ∷ [];
  upstream = code_service;
}

abbrev one_check_in : AttendanceDb
one_check_in = record { check_ins = alice ∷ []; checkpoints = []; reconciliations = [] }

reconcile_each-IsKept_example :
    IsKept alice alice (reconcile_each no_dates ((99, later_call) ∷ []) one_check_in).check_ins
reconcile_each-IsKept_example =
    reconcile_each-IsKept no_dates ((99, later_call) ∷ []) one_check_in alice alice refl

-- The code is of an event that is no longer known: the check-in stays classified.
renamed :
    stored_as alice (reconcile_each no_dates ((99, later_call) ∷ []) one_check_in).check_ins
    ≡ some (record alice { event_id = some "e2"; event_name = "Renamed"; checked_in_at = 11 })
unfolding reconcile_each
renamed = refl

-- A check-in to the same event by another code, earlier.
abbrev earlier : CheckIn
earlier = record alice { code_id = "c0"; checked_in_at = 7 }

abbrev twice : AttendanceDb
twice = record { check_ins = alice ∷ earlier ∷ []; checkpoints = []; reconciliations = [] }

abbrev porto : OwnCommunity
porto = record { organization_id = "o1"; community_name = "Porto"; events = [] }

abbrev never_before : String → String → Bool
never_before a b = false

history-IsAttendance_example :
    IsAttendance
      (porto ∷ [])
      (rows_of "alice" (porto ∷ []) twice)
      (history never_before "alice" (porto ∷ []) twice).events
history-IsAttendance_example = history-IsAttendance never_before "alice" porto [] twice

first_kept :
    (history never_before "alice" (porto ∷ []) twice).events
    ≡ attended_as (porto ∷ []) earlier "e1" ∷ []
unfolding history
first_kept = refl
