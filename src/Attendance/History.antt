-- ===== src/Attendance/History.antt =====
-- recordedOrganizations and history of api/src/services/attendance.ts: what a user has attended, and
-- how complete that is. `locale_before` is the order of localeCompare on the texts that break a tie.
use Prim.Native.String
use citynode_app.Prelude.{
  ℕ, max, String, Bool, true, false, Option, none, some, List, [], ◌∷◌, ◌++◌, map, if◌then◌else◌,
  ◌==◌, ◌&&◌, ◌||◌, not, any, filter, find, ltb, leb, eqb,
}
use citynode_app.Geography.Tree.{member}
use citynode_app.Attendance.Types.{CheckIn, Reconciliation, AttendanceDb, CommunityEvent}
use citynode_app.Attendance.Reconcile.{organization_sweep}

pub record EventAttended : Type 0 where
  pub organization_id : String
  pub community_name : String
  pub event_id : String
  pub event_name : String
  pub checked_in_at : ℕ
  pub starts_at : Option String

pub record Unclassified : Type 0 where
  pub organization_id : String
  pub community_name : String
  pub code_id : String
  pub event_name : String
  pub checked_in_at : ℕ

pub data CoverageReason : Type 0 where
  failed not_synced truncated : CoverageReason

pub record Coverage : Type 0 where
  pub organization_id : String
  pub community_name : String
  pub synced : Bool
  pub reasons : List CoverageReason
  pub synced_at : Option ℕ

pub record AttendanceRecord : Type 0 where
  pub events : List EventAttended
  pub unclassified : List Unclassified
  pub communities : List Coverage

pub record OwnCommunity : Type 0 where
  pub organization_id : String
  pub community_name : String
  pub events : List CommunityEvent

abbrev pub distinct_texts : List String → List String → List String
distinct_texts seen [] = []
distinct_texts seen (x ∷ xs) =
    let rest = distinct_texts seen xs in
    let more = distinct_texts (x ∷ seen) xs in if member x seen then rest else x ∷ more

unfoldable pub recorded_organizations : String → AttendanceDb → List String
recorded_organizations user db = distinct_texts [] (
    map (λ (r : CheckIn). r.organization_id)
      (filter (λ (r : CheckIn). r.user_id == user) db.check_ins))

-- `${organizationId}:${id}`
abbrev pub joint_key : String → String → String
joint_key org id = String.◌++◌ org (String.◌++◌ ":" id)

-- the last entry of a Map that is built from pairs
unfoldable pub last_of {ℓ} : {A : Type ℓ} → String → List (String × A) → Option A
last_of key [] = none
last_of key ((k, a) ∷ pairs) = elim (last_of key pairs) [
  | none ↦ if k == key then some a else none
  | some later ↦ some later
]

abbrev pub event_starts : OwnCommunity → List (String × Option String)
event_starts c =
    map {B = String × Option String}
      (λ (e : CommunityEvent). (joint_key c.organization_id e.id, e.starts_at)) c.events

unfoldable pub all_starts : List OwnCommunity → List (String × Option String)
all_starts [] = []
all_starts (c ∷ communities) = event_starts c ++ all_starts communities

abbrev pub known_name : List OwnCommunity → CheckIn → String
known_name communities row =
    elim (last_of row.organization_id (
      map {B = String × String} (λ (c : OwnCommunity). (c.organization_id, c.community_name))
        communities)) [ none ↦ row.community_name | some name ↦ name ]

-- the event of a row that counts: classified, with an event that is not the empty text
abbrev pub event_of : CheckIn → Option String
event_of row = elim row.event_id [
  | none ↦ none
  | some event ↦ if row.classified && not (event == "") then some event else none
]

abbrev pub start_of : List (String × Option String) → String → Option String
start_of starts key = elim (last_of key starts) [ none ↦ none | some at_instant ↦ at_instant ]

abbrev pub attended_as : List OwnCommunity → CheckIn → String → EventAttended
attended_as communities row event = record {
  organization_id = row.organization_id;
  community_name = known_name communities row;
  event_id = event;
  event_name = row.event_name;
  checked_in_at = row.checked_in_at;
  starts_at = start_of (all_starts communities) (joint_key row.organization_id event);
}

-- the Map of the events: the first check-in of each is kept
unfoldable pub attend : EventAttended → List EventAttended → List EventAttended
attend new [] = new ∷ []
attend new (e ∷ events) =
    let rest = attend new events in
    if joint_key e.organization_id e.event_id == joint_key new.organization_id new.event_id
    then (if leb e.checked_in_at new.checked_in_at then e else new) ∷ events
    else e ∷ rest

unfoldable pub attended : List OwnCommunity → List CheckIn → List EventAttended → List EventAttended
unfolding attend all_starts last_of
attended communities [] events = events
attended communities (row ∷ rows) events = attended communities rows (elim (event_of row) [
  | none ↦ events
  | some event ↦ attend (attended_as communities row event) events
])

abbrev pub unclassified_row : List OwnCommunity → CheckIn → Unclassified
unclassified_row communities row = record {
  organization_id = row.organization_id;
  community_name = known_name communities row;
  code_id = row.code_id;
  event_name = row.event_name;
  checked_in_at = row.checked_in_at;
}

abbrev pub counts : CheckIn → Bool
counts row = elim (event_of row) [ none ↦ false | some event ↦ true ]

abbrev pub find_row : String → List Reconciliation → Option Reconciliation
find_row event rows = find (λ (r : Reconciliation). r.event_id == event) rows

abbrev pub row_failed : Option Reconciliation → Bool
row_failed none = false
row_failed (some r) = r.failed

abbrev pub row_truncated : Option Reconciliation → Bool
row_truncated none = false
row_truncated (some r) = r.truncated

abbrev pub row_missing : Option Reconciliation → Bool
row_missing none = true
row_missing (some r) = false

abbrev pub reason_if : Bool → CoverageReason → List CoverageReason
reason_if b reason = if b then reason ∷ [] else []

-- the set of reasons, in the order of their names
abbrev pub reasons_of : List CommunityEvent → List Reconciliation → List CoverageReason
reasons_of events rows =
    reason_if
      (row_failed (find_row organization_sweep rows)
        || any (λ (e : CommunityEvent). row_failed (find_row e.id rows)) events)
      failed
    ++ reason_if (any (λ (e : CommunityEvent). row_missing (find_row e.id rows)) events) not_synced
    ++ reason_if (any (λ (e : CommunityEvent). row_truncated (find_row e.id rows)) events) truncated

unfoldable pub latest_sync : List Reconciliation → Option ℕ
latest_sync [] = none
latest_sync (r ∷ rows) = elim (latest_sync rows) [
  | none ↦ some r.reconciled_at
  | some later ↦ some (max r.reconciled_at later)
]

abbrev pub no_reason : List CoverageReason → Bool
no_reason [] = true
no_reason (reason ∷ reasons) = false

abbrev pub coverage_of : OwnCommunity → List Reconciliation → Coverage
coverage_of c rows = record {
  organization_id = c.organization_id;
  community_name = c.community_name;
  synced = no_reason (reasons_of c.events rows);
  reasons = reasons_of c.events rows;
  synced_at = latest_sync rows;
}

abbrev pub has_events : List CommunityEvent → Bool
has_events [] = false
has_events (e ∷ events) = true

unfoldable pub coverage : List CheckIn → List Reconciliation → List OwnCommunity → List Coverage
unfolding latest_sync
coverage rows reconciliations [] = []
coverage rows reconciliations (c ∷ communities) =
    let rest = coverage rows reconciliations communities in
    if has_events c.events || any (λ (r : CheckIn). r.organization_id == c.organization_id) rows
    then coverage_of c
        (filter (λ (r : Reconciliation). r.organization_id == c.organization_id) reconciliations)
      ∷ rest
    else rest

-- Array.prototype.sort, which keeps the order of equal elements
unfoldable pub placed {ℓ} : {A : Type ℓ} → (A → A → Bool) → A → List A → List A
placed before x [] = x ∷ []
placed before x (y ∷ ys) =
    let rest = placed before x ys in if before y x then y ∷ rest else x ∷ y ∷ ys

unfoldable pub sorted_by {ℓ} : {A : Type ℓ} → (A → A → Bool) → List A → List A
unfolding placed
sorted_by before [] = []
sorted_by before (x ∷ xs) = placed before x (sorted_by before xs)

module _ (locale_before : String → String → Bool) where
  abbrev pub newest_before : ℕ → String → ℕ → String → Bool
  newest_before a tie_a b tie_b = ltb b a || (eqb a b && locale_before tie_a tie_b)

  abbrev pub event_before : EventAttended → EventAttended → Bool
  event_before a b =
      newest_before a.checked_in_at (joint_key a.organization_id a.event_id) b.checked_in_at
        (joint_key b.organization_id b.event_id)

  abbrev pub unclassified_before : Unclassified → Unclassified → Bool
  unclassified_before a b =
      newest_before a.checked_in_at (joint_key a.organization_id a.code_id) b.checked_in_at
        (joint_key b.organization_id b.code_id)

  unfoldable pub history : String → List OwnCommunity → AttendanceDb → AttendanceRecord
  unfolding attended coverage sorted_by
  history user [] db = record { events = []; unclassified = []; communities = [] }
  history user (c ∷ communities) db =
      let own = c ∷ communities in
      let ids = map (λ (k : OwnCommunity). k.organization_id) own in
      let rows =
        filter (λ (r : CheckIn). r.user_id == user && member r.organization_id ids) db.check_ins in
      let reconciliations =
        filter (λ (r : Reconciliation). member r.organization_id ids) db.reconciliations in
      record {
        events = sorted_by event_before (attended own rows []);
        unclassified =
            sorted_by unclassified_before
              (map (unclassified_row own) (filter (λ r. not (counts r)) rows));
        communities = coverage rows reconciliations own;
      }
