-- ===== src/Teams/Endorsed.antt =====
-- The endorsements of api/src/services/team-join-requests.ts: their unique index and foreign key.
use citynode_app.Prelude.{
  ℕ, String, ◌≡◌, refl, ap, ◌∙◌, Bool, true, false, List, [], ◌∷◌, ◌++◌, arith, ◌==◌, eq_iff, any,
  Bool-cases, inl, inr, All, All-append, All-mono,
}
use citynode_app.Teams.Types.{JoinRequest, Endorsement, TeamDb, TeamEnv, ClosedReason}
use citynode_app.Teams.Store.{
  NewRequest, new_request, conflict, create, update_pending, decided, settle, Closure, close_row,
  closes, close_each, distinct_reasons, close, has_endorsed, endorse,
}
use citynode_app.Teams.Tables.{
  TeamCall, create_call, settle_call, close_call, endorse_call, or_unchanged, run_call, run_calls,
  IsUnique, or_false,
}

abbrev pub same_endorsement : Endorsement → Endorsement → Bool
same_endorsement a b = has_endorsed a.request_id a.endorser_user_id b

abbrev pub has_request : List JoinRequest → String → Bool
has_request rows i = any (λ (r : JoinRequest). r.id == i) rows

-- No user endorses a request twice, and every endorsement is of a stored request.
pub record IsEndorsed (db : TeamDb) : Type 0 where
  pub once : IsUnique same_endorsement db.endorsements
  pub owned : All (λ (e : Endorsement). has_request db.requests e.request_id ≡ true) db.endorsements

has_request-update :
    (chosen : JoinRequest → Bool) (set : JoinRequest → JoinRequest) (i : String)
    (rows : List JoinRequest)
    → ((x : JoinRequest) → (set x).id ≡ x.id)
    → has_request (update_pending chosen set rows) i ≡ has_request rows i
unfolding update_pending
has_request-update chosen set i [] keeps = refl
has_request-update chosen set i (r ∷ rows) keeps =
    ground (arith, has_request-update chosen set i rows keeps, ap (λ x. x == i) (keeps r))

has_request-close_each :
    (closures : List Closure) (reasons : List ClosedReason) (now : ℕ) (i : String)
    (rows : List JoinRequest)
    → has_request (close_each closures reasons now rows) i ≡ has_request rows i
unfolding close_each close_row
has_request-close_each closures [] now i rows = refl
has_request-close_each closures (reason ∷ reasons) now i rows =
    has_request-close_each closures reasons now i _
    ∙ has_request-update (closes closures reason) (close_row reason now) i rows (λ x. refl)

has_request-added :
    (new : JoinRequest) (i : String) (rows : List JoinRequest)
    → has_request rows i ≡ true
    → has_request (rows ++ new ∷ []) i ≡ true
has_request-added new i [] h = cc
has_request-added new i (r ∷ rows) h = ground (arith, has_request-added new i rows)

-- Requests that stay keep the endorsements.
IsEndorsed-kept :
    (db : TeamDb) (rows : List JoinRequest)
    → ((i : String) → has_request db.requests i ≡ true → has_request rows i ≡ true)
    → IsEndorsed db
    → IsEndorsed (record db { requests = rows })
IsEndorsed-kept db rows keeps e = record {
  once = e.once;
  owned = All-mono (λ (x : Endorsement) h. keeps x.request_id h) db.endorsements e.owned;
}

create-IsEndorsed :
    (input : NewRequest) (env : TeamEnv) (db : TeamDb)
    → IsEndorsed db
    → IsEndorsed (create input env db).1
unfolding create
create-IsEndorsed input env db e =
    elim (Bool-cases (any (conflict (new_request input env)) db.requests)) [
      | inl taken ↦ rw taken e
      | inr free ↦ rw free (
          IsEndorsed-kept db (db.requests ++ new_request input env ∷ [])
            (λ i. has_request-added (new_request input env) i db.requests) e)
    ]

any_later :
    (x new : Endorsement) (xs : List Endorsement)
    → any (same_endorsement x) xs ≡ false
    → same_endorsement x new ≡ false
    → any (same_endorsement x) (xs ++ new ∷ []) ≡ false
any_later x new [] h k = rw k refl
any_later x new (y ∷ xs) h k = ground (arith, any_later x new xs, k)

same_endorsement_sym : (a b : Endorsement) → same_endorsement a b ≡ same_endorsement b a
same_endorsement_sym a b = ground (
  arith,
  eq_iff a.request_id b.request_id,
  eq_iff b.request_id a.request_id,
  eq_iff a.endorser_user_id b.endorser_user_id,
  eq_iff b.endorser_user_id a.endorser_user_id,
)

endorsed-IsUnique :
    (new : Endorsement) (xs : List Endorsement)
    → IsUnique same_endorsement xs
    → any (same_endorsement new) xs ≡ false
    → IsUnique same_endorsement (xs ++ new ∷ [])
endorsed-IsUnique new [] u free = (refl, tt)
endorsed-IsUnique new (x ∷ xs) u free = (
  any_later x new xs u.0 (same_endorsement_sym x new ∙ (or_false _ _ free).0),
  endorsed-IsUnique new xs u.1 (or_false _ _ free).1,
)

endorse-IsEndorsed :
    (i user : String) (env : TeamEnv) (db : TeamDb)
    → IsEndorsed db
    → IsEndorsed (or_unchanged db (endorse i user env db))
unfolding endorse
endorse-IsEndorsed i user env db e = elim (Bool-cases (has_request db.requests i)) [
  | inr missing ↦ rw missing e
  | inl stored ↦ elim (Bool-cases (any (has_endorsed i user) db.endorsements)) [
    | inl before ↦ rw (stored, before) e
    | inr first ↦
        rw (stored, first)
          (record {
            once =
                endorsed-IsUnique
                  (record { request_id = i; endorser_user_id = user; created_at = env.now })
                  db.endorsements e.once first;
            owned = All-append _ db.endorsements _ e.owned (stored, tt);
          })
  ]
]

run_call-IsEndorsed :
    (c : TeamCall) (env : TeamEnv) (db : TeamDb) → IsEndorsed db → IsEndorsed (run_call c env db)
unfolding run_call settle close decided
run_call-IsEndorsed (create_call input) env db e = create-IsEndorsed input env db e
run_call-IsEndorsed (settle_call j verdict user) env db e =
    IsEndorsed-kept db _
      (λ i h.
        has_request-update (λ (x : JoinRequest). x.id == j) (decided verdict user env.now) i
          db.requests (λ x. refl)
        ∙ h)
      e
run_call-IsEndorsed (close_call closures) env db e =
    IsEndorsed-kept db _
      (λ i h.
        has_request-close_each closures (distinct_reasons [] closures) env.now i db.requests ∙ h)
      e
run_call-IsEndorsed (endorse_call j user) env db e = endorse-IsEndorsed j user env db e

-- Whatever calls are made one after the other, failing or not, from tables where it is so: no user
-- has endorsed a request twice, and every endorsement is of a stored request.
pub run_calls-IsEndorsed :
    (calls : List (TeamCall × TeamEnv)) (db : TeamDb)
    → IsEndorsed db
    → IsEndorsed (run_calls calls db)
unfolding run_calls
run_calls-IsEndorsed [] db e = e
run_calls-IsEndorsed ((c, env) ∷ calls) db e =
    run_calls-IsEndorsed calls (run_call c env db) (run_call-IsEndorsed c env db e)
