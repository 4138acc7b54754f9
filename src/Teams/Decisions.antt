-- ===== src/Teams/Decisions.antt =====
-- Deciding a request to join a team, in api/src/index.ts, while other calls may run.
use citynode_app.Prelude.{
  String, ◌≡◌, refl, sym, ◌∙◌, Bool, true, false, Option, none, some, List, [], ◌∷◌, arith, ◌==◌,
  eq_iff, not, ◌&&◌, any, if◌then◌else◌, Bool-cases, inl, inr,
}
use citynode_app.Teams.Types.{JoinRequest, TeamDb, TeamEnv, is_pending}
use citynode_app.Teams.Store.{
  conflict, Verdict, approve, decline, settle, decided, update_pending, RequestRecord,
  request_by_id, Closure, list,
}
use citynode_app.Teams.Tables.{
  TeamCall, run_calls, IsUnique, run_calls-IsUnique, close_call, run_call, or_false,
}
use citynode_app.Teams.Handlers
use citynode_app.Teams.Handlers.{
  Caller, can_review, TeamResult, granted, refused, Outcome, settled, settled_after, decided_by,
  decide_request, loaded_for, is_member, load_team_request, load_team_community, swept_list,
  to_close, refreshed,
}

no_twin :
    (i : String) (r : JoinRequest) (rows : List JoinRequest)
    → r.id == i ≡ true
    → any (conflict r) rows ≡ false
    → any (λ (x : JoinRequest). x.id == i && is_pending x.status) rows ≡ true
    → ⊥
no_twin i r [] same apart h = cc
no_twin i r (x ∷ rows) same apart h =
    let (first, others) = or_false (conflict r x) (any (conflict r) rows) apart in
    elim (Bool-cases (x.id == i)) [
      | inl twin ↦ ground (
        arith,
        first,
        eq_iff r.id i,
        eq_iff x.id i,
        eq_iff r.id x.id,
        (eq_iff r.id i).0 same ∙ sym ((eq_iff x.id i).0 twin),
      )
      | inr other ↦ no_twin i r rows same others (rw other at h)
    ]

-- The request that settling finds, in tables where no two requests have one identifier.
settle_lem :
    (i : String) (set : JoinRequest → JoinRequest) (rows : List JoinRequest)
    → IsUnique conflict rows
    → ((x : JoinRequest) → (set x).id ≡ x.id)
    → any (λ (r : JoinRequest). r.id == i && is_pending r.status) rows ≡ true
    → (r : JoinRequest) × (request_by_id i rows ≡ some r)
      × (is_pending r.status ≡ true)
      × (request_by_id i (update_pending (λ (x : JoinRequest). x.id == i) set rows) ≡ some (set r))
unfolding request_by_id update_pending
settle_lem i set [] u keeps h = cc
settle_lem i set (r ∷ rows) u keeps h = elim (Bool-cases (r.id == i)) [
  | inr other ↦
      let (x, found, open_yet, after) = settle_lem i set rows u.1 keeps (rw other at h) in
      (x, rw other found, open_yet, rw (other, other) after)
  | inl same ↦ elim (Bool-cases (is_pending r.status)) [
    | inl open_yet ↦ (r, rw same, open_yet, rw (same, open_yet, keeps r, same))
    | inr over ↦ absurd (no_twin i r rows same u.0 (rw (same, over) at h))
  ]
]

swept-IsUnique :
    (order : List JoinRequest → List JoinRequest) (caller : Caller) (env : TeamEnv)
    (organization : String) (stored : List RequestRecord) (closures : List Closure) (db : TeamDb)
    → IsUnique conflict db.requests
    → IsUnique conflict (swept_list order caller env organization stored closures db).1.requests
unfolding run_calls run_call
swept-IsUnique order caller env organization stored [] db u = u
swept-IsUnique order caller env organization stored (c ∷ closures) db u =
    run_calls-IsUnique ((close_call (c ∷ closures), env) ∷ []) db u

either-IsUnique :
    (b : Bool) (x y : TeamResult RequestRecord × TeamDb)
    → IsUnique conflict x.1.requests
    → IsUnique conflict y.1.requests
    → IsUnique conflict (if b then x else y).1.requests
either-IsUnique true x y u v = u
either-IsUnique false x y u v = v

load-IsUnique :
    (order : List JoinRequest → List JoinRequest) (caller : Caller) (env : TeamEnv) (i : String)
    (o : Option JoinRequest) (db : TeamDb)
    → IsUnique conflict db.requests
    → IsUnique conflict (loaded_for order caller env i o db).1.requests
unfolding load_team_community
load-IsUnique order caller env i none db u = u
load-IsUnique order caller env i (some r) db u =
    either-IsUnique (not (is_member caller.auth)) _ _ u (
      swept-IsUnique order caller env r.organization_id
        (list order r.organization_id caller.user_id env.now db)
        (to_close caller (list order r.organization_id caller.user_id env.now db)) db u)

-- What a decision leaves: the request, pending until then, with the verdict and the caller.
pub record IsDecision (i : String) (verdict : Verdict) (caller : Caller) (env : TeamEnv)
    (db : TeamDb) : Type 0 where
  pub before : JoinRequest
  pub open_yet : is_pending before.status ≡ true
  pub after : request_by_id i db.requests ≡ some (decided verdict caller.user_id env.now before)

abbrev pub verdict_of : Bool → Verdict
verdict_of approving = if approving then approve else decline

-- The members that an approval adds to a team.
abbrev pub added_by : Bool → JoinRequest → List (String × String)
added_by approving r = if approving then (r.team_id, r.requester_user_id) ∷ [] else []

module _ (order : List JoinRequest → List JoinRequest) (caller : Caller) (env : TeamEnv) where
  settled_lem :
      (i : String) (verdict : Verdict) (db : TeamDb) (r : RequestRecord)
      → IsUnique conflict db.requests
      → (settled order caller env i verdict db).0 ≡ granted r
      → IsDecision i verdict caller env (settled order caller env i verdict db).1
  unfolding settled settle decided
  settled_lem i verdict db r u h =
      elim (Bool-cases (any (λ (x : JoinRequest). x.id == i && is_pending x.status) db.requests)) [
        | inr over ↦ cc (rw over at h)
        | inl open_yet ↦
            let (before, found, waiting, after) =
              settle_lem i (decided verdict caller.user_id env.now) db.requests u (λ x. refl)
                open_yet in
            rw open_yet (record { before = before; open_yet = waiting; after = after })
      ]

  module _ (meanwhile : List (TeamCall × TeamEnv)) (add_member : String → String → Bool) where
    decided_by_lem :
        (approving : Bool) (loaded : TeamResult RequestRecord) (db : TeamDb) (r : RequestRecord)
        → IsUnique conflict db.requests
        → (decided_by order caller env meanwhile add_member approving loaded db).response
          ≡ granted r
        → (x : RequestRecord) × (loaded ≡ granted x)
          × (can_review caller.auth ≡ true)
          × IsDecision x.row.id
              (verdict_of approving)
              caller
              env
              (decided_by order caller env meanwhile add_member approving loaded db).db
          × ((decided_by order caller env meanwhile add_member approving loaded db).added
              ≡ added_by approving x.row)
    decided_by_lem approving (refused e) db r u h = cc
    decided_by_lem approving (granted x) db r u h = elim (Bool-cases (can_review caller.auth)) [
      | inr no_right ↦ cc (rw no_right at h)
      | inl right ↦ elim (Bool-cases (is_pending x.row.status)) [
        | inr over ↦ cc (rw (right, over) at h)
        | inl waiting ↦ elim (Bool-cases approving) [
          | inr declining ↦
              rw (right, waiting, declining)
                (
                  x,
                  refl,
                  refl,
                  settled_lem x.row.id decline (run_calls meanwhile db) r
                      (run_calls-IsUnique meanwhile db u) (rw (right, waiting, declining) at h),
                  refl,
                )
          | inl agreeing ↦ elim (Bool-cases (add_member x.row.team_id x.row.requester_user_id)) [
            | inr failed ↦ cc (rw (right, waiting, agreeing, failed) at h)
            | inl joined ↦
                rw (right, waiting, agreeing, joined)
                  (
                    x,
                    refl,
                    refl,
                    settled_lem x.row.id approve (run_calls meanwhile db) r
                        (run_calls-IsUnique meanwhile db u)
                        (rw (right, waiting, agreeing, joined) at h),
                    refl,
                  )
          ]
        ]
      ]
    ]

-- A decision that is answered with the request was made by an owner or admin of the community on a
-- request that they could load, which was pending until then and now has the verdict and who gave
-- it, whatever calls ran in between; an approval has added the requester to the team, and declining
-- adds nobody.
pub decide_request_lem :
    (order : List JoinRequest → List JoinRequest) (caller : Caller) (env : TeamEnv)
    (meanwhile : List (TeamCall × TeamEnv)) (add_member : String → String → Bool) (approving : Bool)
    (i : String) (db : TeamDb) (r : RequestRecord)
    → IsUnique conflict db.requests
    → (decide_request order caller env meanwhile add_member approving i db).response ≡ granted r
    → (x : RequestRecord) × ((load_team_request order caller env i db).0 ≡ granted x)
      × (can_review caller.auth ≡ true)
      × IsDecision x.row.id
          (verdict_of approving)
          caller
          env
          (decide_request order caller env meanwhile add_member approving i db).db
      × ((decide_request order caller env meanwhile add_member approving i db).added
          ≡ added_by approving x.row)
unfolding decide_request load_team_request
decide_request_lem order caller env meanwhile add_member approving i db r u h =
    decided_by_lem order caller env meanwhile add_member approving _ _ r
      (load-IsUnique order caller env i (request_by_id i db.requests) db u) h

-- Approving while the request stops being pending, say because it is withdrawn: the answer is a
-- conflict, but the requester has been added to the team.
pub late_approval :
    (order : List JoinRequest → List JoinRequest) (caller : Caller) (env : TeamEnv)
    (meanwhile : List (TeamCall × TeamEnv)) (add_member : String → String → Bool) (i : String)
    (db after : TeamDb) (r : RequestRecord)
    → load_team_request order caller env i db ≡ (granted r, after)
    → can_review caller.auth ≡ true
    → is_pending r.row.status ≡ true
    → add_member r.row.team_id r.row.requester_user_id ≡ true
    → any
        (λ (x : JoinRequest). x.id == r.row.id && is_pending x.status)
        (run_calls meanwhile after).requests
      ≡ false
    → ((decide_request order caller env meanwhile add_member true i db).response
        ≡ refused Handlers.conflict)
      × ((decide_request order caller env meanwhile add_member true i db).added
          ≡ (r.row.team_id, r.row.requester_user_id) ∷ [])
unfolding decide_request settled settle
late_approval order caller env meanwhile add_member i db after r loaded reviewer open_yet adds
      late =
    (rw (loaded, reviewer, open_yet, adds, late), rw (loaded, reviewer, open_yet, adds))
