-- ===== src/Teams/Closing.antt =====
-- The sweep of loadTeamCommunity in api/src/index.ts, beside its effect on each row.
use citynode_app.Prelude.{
  ℕ, String, ◌≡◌, refl, sym, ap, ◌∙◌, Bool, true, false, Option, none, some, List, [], ◌∷◌, arith,
  ◌==◌, eq_iff, eq_refl, ◌&&◌, ◌||◌, any, filter, map, Bool-cases, inl, inr, All, All-mono,
}
use citynode_app.Teams.Types.{JoinRequest, TeamDb, TeamEnv, ClosedReason, is_pending}
use citynode_app.Teams.Store.{conflict, Closure, closes, distinct_reasons, close}
use citynode_app.Teams.Policy.{Community, closure_reason, closures_of, closure_for}
use citynode_app.Teams.Tables.{IsUnique, or_false}
use citynode_app.Teams.Sweeps.{wants, close_each-map, swept_by, closed_each_lem}

-- The rows of the list that have the key of `r` are `r`, and there is one.
record IsKeyed (rows : List JoinRequest) (r : JoinRequest) : Type 0 where
  only : All (λ (y : JoinRequest). y.id == r.id ≡ true → y ≡ r) rows
  here : any (λ (y : JoinRequest). y.id == r.id) rows ≡ true

apart :
    (x : JoinRequest) (rows : List JoinRequest)
    → any (conflict x) rows ≡ false
    → All (λ (y : JoinRequest). x.id == y.id ≡ false) rows
apart x [] h = tt
apart x (y ∷ rows) h =
    let (first, others) = or_false (conflict x y) (any (conflict x) rows) h in
    ((or_false _ _ first).0, apart x rows others)

other_key : (x y : JoinRequest) → x.id == y.id ≡ false → y.id == x.id ≡ true → y ≡ x
other_key x y n h = cc (n, (eq_iff y.id x.id).0 h, eq_refl y.id)

IsKeyed-cons :
    (x : JoinRequest) (all rows : List JoinRequest)
    → All (λ (y : JoinRequest). x.id == y.id ≡ false) rows
    → All (IsKeyed all) rows
    → All (IsKeyed (x ∷ all)) rows
IsKeyed-cons x all [] n h = tt
IsKeyed-cons x all (r ∷ rows) n h = (
  record { only = (λ same. cc (same, n.0), h.0.only); here = ground (arith, h.0.here) },
  IsKeyed-cons x all rows n.1 h.1,
)

IsKeyed-rows : (rows : List JoinRequest) → IsUnique conflict rows → All (IsKeyed rows) rows
IsKeyed-rows [] u = tt
IsKeyed-rows (x ∷ rows) u = (
  record {
    only = (λ same. refl, All-mono (λ y n same. other_key x y n same) rows (apart x rows u.0));
    here = rw (eq_refl x.id);
  },
  IsKeyed-cons x rows rows (apart x rows u.0) (IsKeyed-rows rows u.1),
)

abbrev wanted : (JoinRequest → Bool) → Community → ClosedReason → JoinRequest → Bool
wanted listed community reason r =
    listed r && is_pending r.status && wants (closure_reason r community) reason

closes-closure_for :
    (reason : ClosedReason) (r : JoinRequest) (i : String) (b : Bool) (o : Option ClosedReason)
    (closures : List Closure)
    → closes (closure_for i b o closures) reason r
      ≡ ((b && wants o reason && i == r.id) || closes closures reason r)
closes-closure_for reason r i false o closures = refl
closes-closure_for reason r i true none closures = refl
closes-closure_for reason r i true (some mine) closures = refl

-- A row that is `r` itself.
closes_own :
    (listed : JoinRequest → Bool) (community : Community) (reason : ClosedReason)
    (r y : JoinRequest) (later here : Bool)
    → later ≡ (here && wanted listed community reason r)
    → y ≡ r
    → listed y ≡ true
    → ((is_pending y.status && wants (closure_reason y community) reason && true) || later)
      ≡ wanted listed community reason r
closes_own listed community reason r y later here h e on_row = ground (
  arith,
  h,
  ap is_pending (ap (λ (x : JoinRequest). x.status) e),
  ap (λ x. wants (closure_reason x community) reason) e,
  ap listed (sym e) ∙ on_row,
)

closes_lem :
    (listed : JoinRequest → Bool) (community : Community) (reason : ClosedReason) (r : JoinRequest)
    (rows : List JoinRequest)
    → All (λ (y : JoinRequest). y.id == r.id ≡ true → y ≡ r) rows
    → closes (closures_of community (filter listed rows)) reason r
      ≡ (any (λ (y : JoinRequest). y.id == r.id) rows && wanted listed community reason r)
unfolding closures_of
closes_lem listed community reason r [] only = refl
closes_lem listed community reason r (y ∷ rows) only = elim (Bool-cases (listed y)) [
  | inl on_list ↦ elim (Bool-cases (y.id == r.id)) [
    | inl same ↦
        rw (on_list, closes_first y, same)
          (closes_own listed community reason r y _ _
            (closes_lem listed community reason r rows only.1) (only.0 same) on_list)
    | inr other ↦
        rw (on_list, closes_first y, other)
          (ground (arith, closes_lem listed community reason r rows only.1))
  ]
  | inr unlisted ↦ elim (Bool-cases (y.id == r.id)) [
    | inl same ↦
        rw (unlisted, same)
          (ground (
            arith,
            closes_lem listed community reason r rows only.1,
            ap listed (sym (only.0 same)) ∙ unlisted,
          ))
    | inr other ↦ rw (unlisted, other) (closes_lem listed community reason r rows only.1)
  ]
]
  where
    closes_first :
        (y : JoinRequest)
        → closes (closures_of community (y ∷ filter listed rows)) reason r ≡ (
            (is_pending y.status && wants (closure_reason y community) reason && y.id == r.id)
            || closes (closures_of community (filter listed rows)) reason r)
    closes_first y = closes-closure_for reason r y.id _ _ _

-- A listed row that is pending and that the community no longer allows is closed for the reason; any
-- other row stays.
unfoldable pub swept : (JoinRequest → Bool) → Community → ℕ → JoinRequest → JoinRequest
swept listed community now r =
    swept_by (listed r && is_pending r.status) (closure_reason r community) now r

map-All :
    (f g : JoinRequest → JoinRequest) (rows : List JoinRequest)
    → All (λ r. f r ≡ g r) rows
    → map f rows ≡ map g rows
map-All f g [] h = refl
map-All f g (r ∷ rows) h = rw (h.0, map-All f g rows h.1)

-- Closing what loadTeamCommunity found to close among the requests that it listed, one update for
-- each reason, closes for its own reason every listed request that is pending and that the community
-- no longer allows, and leaves every other row, where no two requests have one identifier.
pub close-closures_of :
    (listed : JoinRequest → Bool) (community : Community) (env : TeamEnv) (db : TeamDb)
    → IsUnique conflict db.requests
    → close (closures_of community (filter listed db.requests)) env db
      ≡ record db { requests = map (swept listed community env.now) db.requests }
unfolding close swept
close-closures_of listed community env db u =
    let closures : List Closure = closures_of community (filter listed db.requests) in
    ap (λ rows. record db { requests = rows })
      (close_each-map closures (distinct_reasons [] closures) env.now db.requests
        ∙ map-All _ _ db.requests (
            All-mono
              (λ r keyed.
                closed_each_lem closures env.now r (listed r && is_pending r.status)
                  (closure_reason r community) (λ both. ground (arith, both))
                  (λ reason. ground (
                    arith,
                    closes_lem listed community reason r db.requests keyed.only,
                    keyed.here,
                  )))
              db.requests (IsKeyed-rows db.requests u)))
