-- ===== src/Attendance/Earliest.antt =====
-- The events of `history` in api/src/services/attendance.ts: the Map that its check-ins build.
use citynode_app.Prelude.{
  ℕ, String, ◌≡◌, IsSome, IsPairwise, refl, sym, ap, inl, inr, Bool, Option, none, some, List, [],
  ◌∷◌, arith, ◌==◌, ◌&&◌, map, filter, All, All-mono,
}
use citynode_app.Geography.Tree.{member}
use citynode_app.Attendance.Types.{CheckIn, AttendanceDb}
use citynode_app.Attendance.History.{
  EventAttended, OwnCommunity, joint_key, event_of, attended_as, attend, attended, sorted_by,
  event_before, history,
}
use citynode_app.Attendance.Sorted.{All-sorted_by, IsSome-sorted_by, IsPairwise-sorted_by}
use citynode_app.Attendance.Entries.{IsBy, IsApart, attend-IsBy, All-attend, attend-IsPairwise}

-- a row that counts for an event is the row of an entry
abbrev pub IsFor : List OwnCommunity → EventAttended → CheckIn → Type 0
IsFor communities e row =
    (event : String) × (event_of row ≡ some event) × (e ≡ attended_as communities row event)

-- where a row counts for an event, an entry of it is no later than the row
abbrev pub IsCovered : List EventAttended → CheckIn → Type 0
IsCovered events row =
    (event : String)
    → event_of row ≡ some event
    → IsSome (IsBy (joint_key row.organization_id event) row.checked_in_at) events

module _ (communities : List OwnCommunity) where
  abbrev added : Option String → CheckIn → List EventAttended → List EventAttended
  added found row events = elim found [
    | none ↦ events
    | some event ↦ attend (attended_as communities row event) events
  ]

  attended-IsBy :
      (rows : List CheckIn) (events : List EventAttended) (key : String) (instant : ℕ)
      → IsSome (IsBy key instant) events
      → IsSome (IsBy key instant) (attended communities rows events)
  unfolding attended
  attended-IsBy [] events key instant h = h
  attended-IsBy (row ∷ rows) events key instant h =
      attended-IsBy rows (added (event_of row) row events) key instant (kept (event_of row))
    where
      kept : (found : Option String) → IsSome (IsBy key instant) (added found row events)
      kept none = h
      kept (some event) = attend-IsBy (attended_as communities row event) events key instant (inr h)

  attended-IsCovered :
      (rows : List CheckIn) (events : List EventAttended)
      → All (IsCovered (attended communities rows events)) rows
  unfolding attended
  attended-IsCovered [] events = tt
  attended-IsCovered (row ∷ rows) events = (
    λ event counted.
        attended-IsBy rows (added (event_of row) row events) (joint_key row.organization_id event)
          row.checked_in_at (covered event (event_of row) counted),
    attended-IsCovered rows (added (event_of row) row events),
  )
    where
      covered :
          (event : String) (found : Option String)
          → found ≡ some event
          → IsSome
              (IsBy (joint_key row.organization_id event) row.checked_in_at)
              (added found row events)
      covered event none e = cc
      covered event (some other) e =
          let same : other ≡ event = cc in
          attend-IsBy (attended_as communities row other) events
            (joint_key row.organization_id event) row.checked_in_at
            (inl (record { same = ap (joint_key row.organization_id) same; early = omega arith }))

  attended-IsPairwise :
      (rows : List CheckIn) (events : List EventAttended)
      → IsPairwise IsApart events
      → IsPairwise IsApart (attended communities rows events)
  unfolding attended
  attended-IsPairwise [] events h = h
  attended-IsPairwise (row ∷ rows) events h =
      attended-IsPairwise rows (added (event_of row) row events) (apart (event_of row))
    where
      apart : (found : Option String) → IsPairwise IsApart (added found row events)
      apart none = h
      apart (some event) = attend-IsPairwise (attended_as communities row event) events h

  attended-All :
      (P : EventAttended → Type 0) (rows : List CheckIn) (events : List EventAttended)
      → All
          (λ (row : CheckIn).
            (event : String) → event_of row ≡ some event → P (attended_as communities row event))
          rows
      → All P events
      → All P (attended communities rows events)
  unfolding attended
  attended-All P [] events k h = h
  attended-All P (row ∷ rows) events k h =
      attended-All P rows (added (event_of row) row events) k.1 (kept (event_of row) refl)
    where
      kept : (found : Option String) → event_of row ≡ found → All P (added found row events)
      kept none e = h
      kept (some event) e = All-attend P (attended_as communities row event) events (k.0 event e) h

  -- Every row is one of the rows.
  rows-IsFor :
      (rows : List CheckIn)
      → All
          (λ (row : CheckIn).
            (event : String)
            → event_of row ≡ some event
            → IsSome (IsFor communities (attended_as communities row event)) rows)
          rows
  rows-IsFor [] = tt
  rows-IsFor (row ∷ rows) = (
    λ event e. inl (event, e, refl),
    All-mono
        {P = λ (r : CheckIn).
          (event : String)
          → event_of r ≡ some event
          → IsSome (IsFor communities (attended_as communities r event)) rows}
        {Q = λ (r : CheckIn).
          (event : String)
          → event_of r ≡ some event
          → IsSome (IsFor communities (attended_as communities r event)) (row ∷ rows)}
        (λ (r : CheckIn) h event e. inr (h event e)) rows (rows-IsFor rows),
  )

-- The events that check-ins amount to.
pub record IsAttendance (communities : List OwnCommunity) (rows : List CheckIn)
    (events : List EventAttended) : Type 0 where
  pub once : IsPairwise IsApart events
  pub earliest : All (IsCovered events) rows
  pub real : All (λ e. IsSome (IsFor communities e) rows) events

-- the rows that `history` selects
abbrev pub rows_of : String → List OwnCommunity → AttendanceDb → List CheckIn
rows_of user communities db =
    filter
      (λ (r : CheckIn).
        r.user_id == user
        && member r.organization_id (map (λ (c : OwnCommunity). c.organization_id) communities))
      db.check_ins

-- The history of a user in one community or more has one event for each that the user's check-ins in
-- them count for: no two of its events are the same one, each is made of one of the check-ins, and
-- where a check-in counts for an event, that event is there and not later than the check-in.
pub history-IsAttendance :
    (locale_before : String → String → Bool) (user : String) (c : OwnCommunity)
    (communities : List OwnCommunity) (db : AttendanceDb)
    → IsAttendance
        (c ∷ communities)
        (rows_of user (c ∷ communities) db)
        (history locale_before user (c ∷ communities) db).events
unfolding history
history-IsAttendance locale_before user c communities db =
    let own = c ∷ communities in
    let rows = rows_of user own db in
    let events = attended own rows [] in
    let before = event_before locale_before in
    record {
      once =
          IsPairwise-sorted_by before IsApart (λ a b apart same. apart (sym same)) events
            (attended-IsPairwise own rows [] tt);
      earliest =
          All-mono {P = IsCovered events} {Q = IsCovered (sorted_by before events)}
            (λ (row : CheckIn) h event e.
              IsSome-sorted_by before (IsBy (joint_key row.organization_id event) row.checked_in_at)
                events (h event e))
            rows (attended-IsCovered own rows []);
      real =
          All-sorted_by before (λ e. IsSome (IsFor own e) rows) events
            (attended-All own (λ e. IsSome (IsFor own e) rows) rows [] (rows-IsFor own rows) tt);
    }
