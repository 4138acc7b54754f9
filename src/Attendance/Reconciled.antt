-- ===== src/Attendance/Reconciled.antt =====
-- A stored check-in under reconciliations of api/src/services/attendance.ts, one after the other.
use citynode_app.Prelude.{
  ◌≡◌, inl, inr, ℕ, String, Option, none, some, List, [], ◌∷◌, ◌++◌, Bool-cases, filter,
}
use citynode_app.Attendance.Types.{
  CheckIn, Reconciliation, AttendanceDb, CommunityEvent, UpstreamCode, CodesAnswer, listed, denied,
  unavailable, Upstream, for_each, repeats,
}
use citynode_app.Attendance.Recording.{Community, record_code}
use citynode_app.Attendance.Reconcile.{
  codes_or_null, reconcile_event, record_codes, event_result, store_results, store_all,
  reconcile_known, reconcile, reconcile_each, ReconcileInput, EventResult, same_row, community_of,
  tables, outside, is_due, sweep_result, summary,
}
use citynode_app.Attendance.Kept.{
  Grown, Keeps, Grown-refl, Grown-trans, Keeps-bind, Keeps-answer, for_each-Keeps,
  record_code-Keeps, IsKept, stored_as,
}

codes_or_null-Keeps : (codes : CodesAnswer) → Keeps (codes_or_null codes)
unfolding Keeps
codes_or_null-Keeps (listed codes) db = Grown-refl db.check_ins
codes_or_null-Keeps denied db = Grown-refl db.check_ins
codes_or_null-Keeps unavailable db = Grown-refl db.check_ins

module _ (upstream : Upstream) (parse_date : String → Option ℕ) (now : ℕ)
    (community : Community) where
  record_codes-Keeps :
      (id : String) (codes : Option (List UpstreamCode))
      → Keeps (record_codes upstream parse_date now community id codes)
  record_codes-Keeps id none = Keeps-answer _
  record_codes-Keeps id (some codes) =
      Keeps-bind (for_each codes (record_code upstream community now)) _
        (for_each-Keeps codes (record_code upstream community now)
          (record_code-Keeps upstream community now))
        (λ recorded.
          Keeps-answer (event_result upstream parse_date now community id codes recorded))

  reconcile_event-Keeps :
      (event : CommunityEvent) → Keeps (reconcile_event upstream parse_date now community event)
  unfolding reconcile_event
  reconcile_event-Keeps event =
      Keeps-bind (codes_or_null (upstream.list_codes (some event.id))) _
        (codes_or_null-Keeps (upstream.list_codes (some event.id)))
        (λ codes. record_codes-Keeps event.id codes)

  store_results-Keeps :
      (merge : Reconciliation → Reconciliation → Reconciliation) (rows : List Reconciliation)
      → Keeps (store_results upstream parse_date now community merge rows)
  unfolding Keeps store_results
  store_results-Keeps merge rows db =
      elim (Bool-cases (repeats (same_row upstream parse_date now community) rows)) [
        | inl twice ↦ rw twice (Grown-refl db.check_ins)
        | inr once ↦ rw once (Grown-refl db.check_ins)
      ]

  store_all-Keeps :
      (results : List EventResult) → Keeps (store_all upstream parse_date now community results)
  store_all-Keeps results = Keeps-bind _ _ (store_results-Keeps _ _) (λ u. store_results-Keeps _ _)

  tables-Keeps : Keeps (tables upstream parse_date now community)
  unfolding Keeps
  tables-Keeps db = Grown-refl db.check_ins

  reconcile_known-Keeps :
      (events : List CommunityEvent)
      → Keeps (reconcile_known upstream parse_date now community events)
  unfolding reconcile_known
  reconcile_known-Keeps events =
      Keeps-bind _ _ (codes_or_null-Keeps (upstream.list_codes none)) (λ latest.
        Keeps-bind _ _ tables-Keeps (λ read.
          let due = filter (is_due upstream parse_date now community read latest) events in
          Keeps-bind (for_each due (reconcile_event upstream parse_date now community)) _
            (for_each-Keeps due _ reconcile_event-Keeps)
            (λ results.
              let codes = outside upstream parse_date now community latest in
              Keeps-bind (for_each codes (record_code upstream community now)) _
                (for_each-Keeps codes _ (record_code-Keeps upstream community now))
                (λ swept.
                  let all =
                    results ++ sweep_result upstream parse_date now community latest swept ∷ [] in
                  Keeps-bind (store_all upstream parse_date now community all) _
                    (store_all-Keeps all)
                    (λ stored. Keeps-answer (summary upstream parse_date now community due all))))))

reconcile-Keeps :
    (parse_date : String → Option ℕ) (now : ℕ) (input : ReconcileInput)
    → Keeps (reconcile parse_date now input)
unfolding reconcile
reconcile-Keeps parse_date now input =
    reconcile_known-Keeps input.upstream parse_date now (community_of input) input.events

reconcile_each-Grown :
    (parse_date : String → Option ℕ) (calls : List (ℕ × ReconcileInput)) (db : AttendanceDb)
    → Grown db.check_ins (reconcile_each parse_date calls db).check_ins
unfolding reconcile_each Keeps
reconcile_each-Grown parse_date [] db = Grown-refl db.check_ins
reconcile_each-Grown parse_date ((now, input) ∷ calls) db =
    let first : AttendanceDb = (reconcile parse_date now input db).1 in
    Grown-trans db.check_ins first.check_ins (reconcile_each parse_date calls first).check_ins
      (reconcile-Keeps parse_date now input db) (reconcile_each-Grown parse_date calls first)

-- A stored check-in of a user with a code stays stored under them, whatever reconciliations are run
-- afterwards, of whatever communities and whatever the other service answers them, failing or not:
-- once classified it stays classified, and the community's name and the instant that it was first
-- recorded with stay.
pub reconcile_each-IsKept :
    (parse_date : String → Option ℕ) (calls : List (ℕ × ReconcileInput)) (db : AttendanceDb)
    (key row : CheckIn)
    → stored_as key db.check_ins ≡ some row
    → IsKept key row (reconcile_each parse_date calls db).check_ins
unfolding Grown
reconcile_each-IsKept parse_date calls db key row e =
    reconcile_each-Grown parse_date calls db key row e
