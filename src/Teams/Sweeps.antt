-- ===== src/Teams/Sweeps.antt =====
-- The updates of `close` in api/src/services/team-join-requests.ts, one for each reason, row by row.
use citynode_app.Prelude.{
  ℕ, String, ◌≡◌, refl, sym, ap, ◌∙◌, Bool, true, false, Option, none, some, List, [], ◌∷◌, arith,
  ◌==◌, ◌&&◌, ◌||◌, any, map, if◌then◌else◌, Bool-cases, inl, inr,
}
use citynode_app.Teams.Types.{
  JoinRequest, ClosedReason, is_pending, same_reason, requester_left, team_deleted,
  team_not_joinable,
}
use citynode_app.Teams.Store.{
  update_pending, Closure, close_row, closes, close_each, distinct_reasons,
}

-- What one update does to a row, and all of them.
abbrev closed_for : List Closure → ℕ → ClosedReason → JoinRequest → JoinRequest
closed_for closures now reason r =
    if closes closures reason r && is_pending r.status then close_row reason now r else r

abbrev pub closed_each : List Closure → List ClosedReason → ℕ → JoinRequest → JoinRequest
closed_each closures [] now r = r
closed_each closures (reason ∷ reasons) now r =
    closed_each closures reasons now (closed_for closures now reason r)

update_pending-map :
    (closures : List Closure) (reason : ClosedReason) (now : ℕ) (rows : List JoinRequest)
    → update_pending (closes closures reason) (close_row reason now) rows
      ≡ map (closed_for closures now reason) rows
unfolding update_pending
update_pending-map closures reason now [] = refl
update_pending-map closures reason now (r ∷ rows) =
    elim (Bool-cases (closes closures reason r && is_pending r.status)) [
      | inl hit ↦ rw (hit, update_pending-map closures reason now rows)
      | inr miss ↦ rw (miss, update_pending-map closures reason now rows)
    ]

map-map :
    (f g : JoinRequest → JoinRequest) (rows : List JoinRequest)
    → map f (map g rows) ≡ map (λ r. f (g r)) rows
map-map f g [] = refl
map-map f g (r ∷ rows) = ap (λ rs. f (g r) ∷ rs) (map-map f g rows)

map_id : (rows : List JoinRequest) → rows ≡ map (λ r. r) rows
map_id [] = refl
map_id (r ∷ rows) = ap (λ rs. r ∷ rs) (map_id rows)

pub close_each-map :
    (closures : List Closure) (reasons : List ClosedReason) (now : ℕ) (rows : List JoinRequest)
    → close_each closures reasons now rows ≡ map (closed_each closures reasons now) rows
unfolding close_each
close_each-map closures [] now rows = map_id rows
close_each-map closures (reason ∷ reasons) now rows =
    ap (close_each closures reasons now) (update_pending-map closures reason now rows)
    ∙ close_each-map closures reasons now _
    ∙ map-map (closed_each closures reasons now) (closed_for closures now reason) rows

abbrev pub wants : Option ClosedReason → ClosedReason → Bool
wants none reason = false
wants (some mine) reason = same_reason mine reason

-- What the sweep leaves of a row that it looked at or not.
abbrev pub swept_by : Bool → Option ClosedReason → ℕ → JoinRequest → JoinRequest
swept_by true (some reason) now r = close_row reason now r
swept_by true none now r = r
swept_by false o now r = r

closed_each-over :
    (closures : List Closure) (reasons : List ClosedReason) (now : ℕ) (r : JoinRequest)
    → is_pending r.status ≡ false
    → closed_each closures reasons now r ≡ r
closed_each-over closures [] now r over = refl
closed_each-over closures (reason ∷ reasons) now r over =
    elim (Bool-cases (closes closures reason r)) [
      | inl hit ↦ rw (hit, over) (closed_each-over closures reasons now r over)
      | inr miss ↦ rw miss (closed_each-over closures reasons now r over)
    ]

closed_each-untouched :
    (closures : List Closure) (reasons : List ClosedReason) (now : ℕ) (r : JoinRequest)
    → ((reason : ClosedReason) → closes closures reason r ≡ false)
    → closed_each closures reasons now r ≡ r
closed_each-untouched closures [] now r h = refl
closed_each-untouched closures (reason ∷ reasons) now r h =
    rw (h reason) (closed_each-untouched closures reasons now r h)

same_reason_refl : (x : ClosedReason) → same_reason x x ≡ true
same_reason_refl requester_left = refl
same_reason_refl team_deleted = refl
same_reason_refl team_not_joinable = refl

same_reason_eq : (x y : ClosedReason) → same_reason x y ≡ true → x ≡ y
same_reason_eq requester_left requester_left h = refl
same_reason_eq requester_left team_deleted h = cc
same_reason_eq requester_left team_not_joinable h = cc
same_reason_eq team_deleted requester_left h = cc
same_reason_eq team_deleted team_deleted h = refl
same_reason_eq team_deleted team_not_joinable h = cc
same_reason_eq team_not_joinable requester_left h = cc
same_reason_eq team_not_joinable team_deleted h = cc
same_reason_eq team_not_joinable team_not_joinable h = refl

closed_each-closed :
    (closures : List Closure) (reasons : List ClosedReason) (now : ℕ) (r : JoinRequest)
    (mine : ClosedReason)
    → is_pending r.status ≡ true
    → ((reason : ClosedReason) → closes closures reason r ≡ same_reason mine reason)
    → any (same_reason mine) reasons ≡ true
    → closed_each closures reasons now r ≡ close_row mine now r
unfolding close_row
closed_each-closed closures [] now r mine open_yet h found = cc
closed_each-closed closures (reason ∷ reasons) now r mine open_yet h found =
    elim (Bool-cases (same_reason mine reason)) [
      | inl same ↦
          rw (h reason, same, open_yet)
            (closed_each-over closures reasons now (close_row reason now r) refl
              ∙ ap (λ x. close_row x now r) (sym (same_reason_eq mine reason same)))
      | inr other ↦
          rw (h reason, other)
            (closed_each-closed closures reasons now r mine open_yet h (rw other at found))
    ]

distinct_reasons_lem :
    (mine : ClosedReason) (i : String) (seen : List ClosedReason) (closures : List Closure)
    → any (λ (c : Closure). same_reason c.reason mine && c.id == i) closures ≡ true
    → (any (same_reason mine) seen || any (same_reason mine) (distinct_reasons seen closures))
      ≡ true
distinct_reasons_lem mine i seen [] h = cc
distinct_reasons_lem mine i seen (c ∷ closures) h =
    elim (Bool-cases (any (same_reason c.reason) seen)) [
      | inl known ↦ rw known (elim (Bool-cases (same_reason c.reason mine)) [
        | inl same ↦ ground (
          arith,
          ap (λ x. any (same_reason x) seen) (sym (same_reason_eq c.reason mine same)) ∙ known,
        )
        | inr other ↦ distinct_reasons_lem mine i seen closures (rw other at h)
      ])
      | inr new ↦ rw new (elim (Bool-cases (same_reason c.reason mine)) [
        | inl same ↦ ground (
          arith,
          ap (λ x. same_reason x c.reason) (sym (same_reason_eq c.reason mine same))
              ∙ same_reason_refl c.reason,
        )
        | inr other ↦
            ground (arith, distinct_reasons_lem mine i (c.reason ∷ seen) closures (rw other at h))
      ])
    ]

-- The row after all the updates, when exactly its own reason closes it.
pub closed_each_lem :
    (closures : List Closure) (now : ℕ) (r : JoinRequest) (b : Bool) (o : Option ClosedReason)
    → (b ≡ true → is_pending r.status ≡ true)
    → ((reason : ClosedReason) → closes closures reason r ≡ (b && wants o reason))
    → closed_each closures (distinct_reasons [] closures) now r ≡ swept_by b o now r
closed_each_lem closures now r false o p h =
    closed_each-untouched closures (distinct_reasons [] closures) now r h
closed_each_lem closures now r true none p h =
    closed_each-untouched closures (distinct_reasons [] closures) now r h
closed_each_lem closures now r true (some mine) p h =
    closed_each-closed closures (distinct_reasons [] closures) now r mine (p refl) h
      (distinct_reasons_lem mine r.id [] closures (h mine ∙ same_reason_refl mine))
