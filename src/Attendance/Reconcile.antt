-- ===== src/Attendance/Reconcile.antt =====
-- reconcile of api/src/services/attendance.ts. The events that are due are done one after the other.
-- `parse_date` is Date.parse; a text that is no date is `none`.
use citynode_app.Prelude.{
  ℕ, ◌+◌, String, Bool, true, false, Option, none, some, List, [], ◌∷◌, ◌++◌, map, if◌then◌else◌,
  ◌==◌, ◌&&◌, ◌||◌, not, any, filter, find, ltb, leb, eqb, opt_eq, length,
}
use citynode_app.Attendance.Types.{
  Checkpoint, Reconciliation, AttendanceDb, CommunityEvent, UpstreamCode, CodesAnswer, listed,
  denied, unavailable, Upstream, Step, ◌>>=◌, answer, fail, for_each, forbidden, database,
  upsert_each, repeats,
}
use citynode_app.Attendance.Recording.{Community, record_code, is_known}

abbrev pub upstream_code_page_limit : ℕ
upstream_code_page_limit = 20

abbrev pub organization_sweep : String
organization_sweep = "*"

-- fourteen days in milliseconds
abbrev pub settled_after_ms : ℕ
settled_after_ms = 1209600000

-- an access error ends the call; another failure is null
abbrev pub codes_or_null : CodesAnswer → Step (Option (List UpstreamCode))
codes_or_null (listed codes) db = answer (some codes) db
codes_or_null denied db = fail forbidden db
codes_or_null unavailable db = answer none db

pub record EventResult : Type 0 where
  pub id : String
  pub truncated : Bool
  pub ok : Bool

pub record ReconcileSummary : Type 0 where
  pub events : ℕ
  pub truncated : List String
  pub failed : List String

abbrev pub all_true : List Bool → Bool
all_true bs = not (any not bs)

abbrev pub or_empty : Option (List UpstreamCode) → List UpstreamCode
or_empty none = []
or_empty (some codes) = codes

abbrev pub is_listed : Option (List UpstreamCode) → Bool
is_listed none = false
is_listed (some codes) = true

-- the last row of the key: a Map keeps the last, and the key is unique
abbrev pub row_of : String → String → List Reconciliation → Option Reconciliation
row_of org event rows =
    find (λ (r : Reconciliation). r.organization_id == org && r.event_id == event) rows

abbrev pub count_of : String → String → List Checkpoint → Option ℕ
count_of org code rows =
    elim (find (λ (c : Checkpoint). c.organization_id == org && c.code_id == code) rows) [
      | none ↦ none
      | some c ↦ some c.used_count
    ]

abbrev pub is_fresh : String → List Checkpoint → UpstreamCode → Bool
is_fresh org rows code = elim (count_of org code.id rows) [
  | none ↦ true
  | some n ↦ not (eqb n code.used_count)
]

abbrev pub settled_row : Option Reconciliation → Bool
settled_row none = false
settled_row (some row) = not row.failed && not row.truncated

-- `!event.startsAt || Date.parse(event.startsAt) > settledBefore`
abbrev pub is_recent : (String → Option ℕ) → ℕ → Option String → Bool
is_recent parse_date now none = true
is_recent parse_date now (some text) =
    text == "" || elim (parse_date text) [ none ↦ false | some t ↦ ltb now (t + settled_after_ms) ]

module _ (upstream : Upstream) (parse_date : String → Option ℕ) (now : ℕ)
    (community : Community) where
  unfoldable pub is_due : AttendanceDb → Option (List UpstreamCode) → CommunityEvent → Bool
  is_due db latest event =
      not (settled_row (row_of community.organization_id event.id db.reconciliations))
      || not (is_listed latest)
      || any
          (λ (c : UpstreamCode).
            opt_eq c.event_id (some event.id)
            && is_fresh community.organization_id db.checkpoints c)
          (or_empty latest)
      || is_recent parse_date now event.starts_at

  abbrev pub event_result : String → List UpstreamCode → List Bool → EventResult
  event_result id codes recorded = record {
    id = id;
    truncated = leb upstream_code_page_limit (length codes);
    ok = all_true recorded;
  }

  abbrev pub record_codes : String → Option (List UpstreamCode) → Step EventResult
  record_codes id none = answer (record { id = id; truncated = false; ok = false })
  record_codes id (some codes) = for_each codes (record_code upstream community now) >>= λ recorded.
      answer (event_result id codes recorded)

  unfoldable pub reconcile_event : CommunityEvent → Step EventResult
  unfolding for_each record_code ◌>>=◌
  reconcile_event event =
      codes_or_null (upstream.list_codes (some event.id)) >>= record_codes event.id

  abbrev pub outside : Option (List UpstreamCode) → List UpstreamCode
  outside latest =
      filter (λ (c : UpstreamCode). not (is_known community.known c.event_id)) (or_empty latest)

  abbrev pub sweep_result : Option (List UpstreamCode) → List Bool → EventResult
  sweep_result latest recorded = record {
    id = organization_sweep;
    truncated = false;
    ok = is_listed latest && all_true recorded;
  }

  abbrev pub same_row : Reconciliation → Reconciliation → Bool
  same_row a b = a.organization_id == b.organization_id && a.event_id == b.event_id

  abbrev pub reconciled : Bool → EventResult → Reconciliation
  reconciled failed result = record {
    organization_id = community.organization_id;
    event_id = result.id;
    truncated = if failed then false else result.truncated;
    failed = failed;
    reconciled_at = now;
  }

  abbrev pub merge_succeeded : Reconciliation → Reconciliation → Reconciliation
  merge_succeeded old new = record old {
    truncated = new.truncated;
    failed = false;
    reconciled_at = new.reconciled_at;
  }

  abbrev pub merge_failed : Reconciliation → Reconciliation → Reconciliation
  merge_failed old new = record old { failed = true }

  -- one insert; an event that is listed twice makes it fail
  unfoldable pub store_results :
      (Reconciliation → Reconciliation → Reconciliation) → List Reconciliation → Step (Unit {0})
  unfolding upsert_each repeats
  store_results merge rows db =
      if repeats same_row rows
      then fail database db
      else answer tt
          (record db { reconciliations = upsert_each same_row merge rows db.reconciliations })

  abbrev pub is_ok : EventResult → Bool
  is_ok result = result.ok

  abbrev pub store_all : List EventResult → Step (Unit {0})
  store_all results =
      store_results merge_succeeded (map (reconciled false) (filter is_ok results)) >>= λ u.
      store_results merge_failed
        (map (reconciled true) (filter (λ result. not (is_ok result)) results))

  abbrev pub summary : List CommunityEvent → List EventResult → ReconcileSummary
  summary due results = record {
    events = length due;
    truncated = map (λ (r : EventResult). r.id) (filter (λ (r : EventResult). r.truncated) results);
    failed = map (λ (r : EventResult). r.id) (filter (λ r. not (is_ok r)) results);
  }

  abbrev pub tables : Step AttendanceDb
  tables db = answer db db

  unfoldable pub reconcile_known : List CommunityEvent → Step ReconcileSummary
  unfolding ◌>>=◌ for_each reconcile_event store_results is_due record_code
  reconcile_known events = do
    latest ← codes_or_null (upstream.list_codes none)
    read ← tables
    let due = filter (is_due read latest) events
    results ← for_each due reconcile_event
    swept ← for_each (outside latest) (record_code upstream community now)
    let all = results ++ sweep_result latest swept ∷ []
    stored ← store_all all
    answer (summary due all)

pub record ReconcileInput : Type 0 where
  pub organization_id : String
  pub community_name : String
  pub events : List CommunityEvent
  pub upstream : Upstream

abbrev pub community_of : ReconcileInput → Community
community_of input = record {
  organization_id = input.organization_id;
  community_name = input.community_name;
  known = map (λ (event : CommunityEvent). event.id) input.events;
}

unfoldable pub reconcile : (String → Option ℕ) → ℕ → ReconcileInput → Step ReconcileSummary
unfolding reconcile_known
reconcile parse_date now input =
    reconcile_known input.upstream parse_date now (community_of input) input.events

-- reconciliations one after the other, each with its instant, failing or not
unfoldable pub reconcile_each :
    (String → Option ℕ) → List (ℕ × ReconcileInput) → AttendanceDb → AttendanceDb
unfolding reconcile
reconcile_each parse_date [] db = db
reconcile_each parse_date ((now, input) ∷ calls) db =
    reconcile_each parse_date calls (reconcile parse_date now input db).1
