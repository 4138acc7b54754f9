-- ===== src/Teams/Decided.antt =====
-- Requests of api/src/services/team-join-requests.ts that are no longer pending.
use citynode_app.Prelude.{
  ℕ, String, ◌≡◌, refl, Bool, false, some, List, [], ◌∷◌, ◌++◌, ◌==◌, ◌&&◌, any, find, Bool-cases,
  inl, inr,
}
use citynode_app.Teams.Types.{JoinRequest, TeamDb, TeamEnv, ClosedReason, is_pending}
use citynode_app.Teams.Store.{
  NewRequest, new_request, conflict, create, update_pending, decided, settle, Closure, close_row,
  closes, close_each, distinct_reasons, close, request_by_id,
}
use citynode_app.Teams.Tables.{
  TeamCall, create_call, settle_call, close_call, endorse_call, run_call, run_calls,
  endorse-requests,
}

-- The row of the identifier is stored, and no longer pending.
pub record IsDecided (i : String) (r : JoinRequest) (rows : List JoinRequest) : Type 0 where
  pub stored : request_by_id i rows ≡ some r
  pub over : is_pending r.status ≡ false

update_pending-IsDecided :
    (chosen : JoinRequest → Bool) (set : JoinRequest → JoinRequest) (i : String) (r : JoinRequest)
    (rows : List JoinRequest)
    → ((x : JoinRequest) → (set x).id ≡ x.id)
    → IsDecided i r rows
    → IsDecided i r (update_pending chosen set rows)
unfolding request_by_id update_pending
update_pending-IsDecided chosen set i r rows keeps d = record {
  stored = go rows d.stored;
  over = d.over;
}
  where
    go :
        (rows : List JoinRequest)
        → find (λ (x : JoinRequest). x.id == i) rows ≡ some r
        → find (λ (x : JoinRequest). x.id == i) (update_pending chosen set rows) ≡ some r
    go [] h = cc
    go (x ∷ rows) h = elim (Bool-cases (x.id == i)) [
      | inr other ↦ elim (Bool-cases (chosen x && is_pending x.status)) [
        | inl hit ↦ rw (hit, keeps x, other) (go rows (rw other at h))
        | inr miss ↦ rw (miss, other) (go rows (rw other at h))
      ]
      | inl same ↦
          let settled : is_pending x.status ≡ false = cc (rw same at h, d.over) in
          elim (Bool-cases (chosen x)) [
            | inl hit ↦ rw (hit, settled, same) (rw same at h)
            | inr miss ↦ rw (miss, same) (rw same at h)
          ]
    ]

close_each-IsDecided :
    (closures : List Closure) (reasons : List ClosedReason) (now : ℕ) (i : String) (r : JoinRequest)
    (rows : List JoinRequest)
    → IsDecided i r rows
    → IsDecided i r (close_each closures reasons now rows)
unfolding close_each close_row
close_each-IsDecided closures [] now i r rows d = d
close_each-IsDecided closures (reason ∷ reasons) now i r rows d =
    close_each-IsDecided closures reasons now i r _ (
      update_pending-IsDecided (closes closures reason) (close_row reason now) i r rows (λ x. refl)
        d)

added-IsDecided :
    (new : JoinRequest) (i : String) (r : JoinRequest) (rows : List JoinRequest)
    → IsDecided i r rows
    → IsDecided i r (rows ++ new ∷ [])
unfolding request_by_id
added-IsDecided new i r rows d = record { stored = go rows d.stored; over = d.over }
  where
    go :
        (rows : List JoinRequest)
        → find (λ (x : JoinRequest). x.id == i) rows ≡ some r
        → find (λ (x : JoinRequest). x.id == i) (rows ++ new ∷ []) ≡ some r
    go [] h = cc
    go (x ∷ rows) h = elim (Bool-cases (x.id == i)) [
      | inr other ↦ rw other (go rows (rw other at h))
      | inl same ↦ rw same (rw same at h)
    ]

create-IsDecided :
    (input : NewRequest) (env : TeamEnv) (db : TeamDb) (i : String) (r : JoinRequest)
    → IsDecided i r db.requests
    → IsDecided i r (create input env db).1.requests
unfolding create
create-IsDecided input env db i r d =
    elim (Bool-cases (any (conflict (new_request input env)) db.requests)) [
      | inl taken ↦ rw taken d
      | inr free ↦ rw free (added-IsDecided (new_request input env) i r db.requests d)
    ]

run_call-IsDecided :
    (c : TeamCall) (env : TeamEnv) (db : TeamDb) (i : String) (r : JoinRequest)
    → IsDecided i r db.requests
    → IsDecided i r (run_call c env db).requests
unfolding run_call settle close decided
run_call-IsDecided (create_call input) env db i r d = create-IsDecided input env db i r d
run_call-IsDecided (settle_call j verdict user) env db i r d =
    update_pending-IsDecided (λ (x : JoinRequest). x.id == j) (decided verdict user env.now) i r
      db.requests (λ x. refl) d
run_call-IsDecided (close_call closures) env db i r d =
    close_each-IsDecided closures (distinct_reasons [] closures) env.now i r db.requests d
run_call-IsDecided (endorse_call j user) env db i r d = rw (endorse-requests j user env db) d

-- A request that is stored and no longer pending keeps every column, whatever calls of the service
-- are made afterwards, in whatever order.
pub run_calls-IsDecided :
    (calls : List (TeamCall × TeamEnv)) (db : TeamDb) (i : String) (r : JoinRequest)
    → IsDecided i r db.requests
    → IsDecided i r (run_calls calls db).requests
unfolding run_calls
run_calls-IsDecided [] db i r d = d
run_calls-IsDecided ((c, env) ∷ calls) db i r d =
    run_calls-IsDecided calls (run_call c env db) i r (run_call-IsDecided c env db i r d)
