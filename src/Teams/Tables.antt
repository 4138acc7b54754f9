-- ===== src/Teams/Tables.antt =====
-- The keys of the tables of api/src/services/team-join-requests.ts, and calls one after the other.
use citynode_app.Prelude.{
  ℕ, String, ◌≡◌, refl, ◌∙◌, Bool, true, false, Option, none, some, List, [], ◌∷◌, ◌++◌, arith,
  ◌==◌, eq_iff, ◌&&◌, ◌||◌, any, Bool-cases, inl, inr,
}
use citynode_app.Teams.Types.{JoinRequest, TeamDb, TeamEnv, ClosedReason, is_pending}
use citynode_app.Teams.Store.{
  NewRequest, new_request, conflict, create, update_pending, Verdict, decided, settle, Closure,
  close_row, closes, close_each, distinct_reasons, close, endorse, status_of, approve, decline,
  withdraw,
}

-- The calls that write.
pub data TeamCall : Type 0 where
  create_call : NewRequest → TeamCall
  settle_call : String → Verdict → String → TeamCall
  close_call : List Closure → TeamCall
  endorse_call : String → String → TeamCall

abbrev pub or_unchanged : TeamDb → Option TeamDb → TeamDb
or_unchanged db none = db
or_unchanged db (some after) = after

unfoldable pub run_call : TeamCall → TeamEnv → TeamDb → TeamDb
unfolding create settle close endorse
run_call (create_call input) env db = (create input env db).1
run_call (settle_call i verdict user) env db = (settle i verdict user env db).1
run_call (close_call closures) env db = close closures env db
run_call (endorse_call i user) env db = or_unchanged db (endorse i user env db)

unfoldable pub run_calls : List (TeamCall × TeamEnv) → TeamDb → TeamDb
unfolding run_call
run_calls [] db = db
run_calls ((c, env) ∷ calls) db = run_calls calls (run_call c env db)

-- No two rows of which one conflicts with the other.
abbrev pub IsUnique {ℓ} : {A : Type ℓ} → (A → A → Bool) → List A → Type 0
IsUnique clash [] = Unit
IsUnique clash (x ∷ xs) = (any (clash x) xs ≡ false) × IsUnique clash xs

-- Every column of the keys is kept, and only pending rows stay pending.
pub record KeepsKeys (set : JoinRequest → JoinRequest) : Type 0 where
  pub id : (r : JoinRequest) → (set r).id ≡ r.id
  pub team : (r : JoinRequest) → (set r).team_id ≡ r.team_id
  pub requester : (r : JoinRequest) → (set r).requester_user_id ≡ r.requester_user_id
  pub settled : (r : JoinRequest) → is_pending (set r).status ≡ false

conflict_sym : (a b : JoinRequest) → conflict a b ≡ conflict b a
conflict_sym a b = ground (
  arith,
  eq_iff a.id b.id,
  eq_iff b.id a.id,
  eq_iff a.team_id b.team_id,
  eq_iff b.team_id a.team_id,
  eq_iff a.requester_user_id b.requester_user_id,
  eq_iff b.requester_user_id a.requester_user_id,
)

pub or_false : (a b : Bool) → (a || b) ≡ false → (a ≡ false) × (b ≡ false)
or_false true b h = cc
or_false false b h = (refl, h)

any_added :
    (new : JoinRequest) (r : JoinRequest) (rows : List JoinRequest)
    → any (conflict r) rows ≡ false
    → conflict r new ≡ false
    → any (conflict r) (rows ++ new ∷ []) ≡ false
any_added new r [] h k = rw k refl
any_added new r (x ∷ rows) h k = ground (arith, any_added new r rows, k)

IsUnique-added :
    (new : JoinRequest) (rows : List JoinRequest)
    → IsUnique conflict rows
    → any (conflict new) rows ≡ false
    → IsUnique conflict (rows ++ new ∷ [])
IsUnique-added new [] u free = (refl, tt)
IsUnique-added new (r ∷ rows) u free = (
  any_added new r rows u.0 (conflict_sym r new ∙ (or_false _ _ free).0),
  IsUnique-added new rows u.1 (or_false _ _ free).1,
)

module _ (chosen : JoinRequest → Bool) (set : JoinRequest → JoinRequest)
    (keeps : KeepsKeys set) where
  conflict_kept : (a b : JoinRequest) → conflict a b ≡ false → conflict (set a) b ≡ false
  conflict_kept a b h = ground (arith, keeps.id a, keeps.settled a)

  any_updated :
      (a : JoinRequest) (rows : List JoinRequest)
      → any (conflict a) rows ≡ false
      → any (conflict a) (update_pending chosen set rows) ≡ false
  unfolding update_pending
  any_updated a [] h = refl
  any_updated a (r ∷ rows) h =
      let (first, others) = or_false (conflict a r) (any (conflict a) rows) h in
      elim (Bool-cases (chosen r && is_pending r.status)) [
        | inl hit ↦
            rw (hit, conflict_sym a (set r) ∙ conflict_kept r a (conflict_sym r a ∙ first))
              (any_updated a rows others)
        | inr miss ↦ rw (miss, first) (any_updated a rows others)
      ]

  any_settled :
      (a : JoinRequest) (rows : List JoinRequest)
      → any (conflict a) rows ≡ false
      → any (conflict (set a)) rows ≡ false
  any_settled a [] h = refl
  any_settled a (r ∷ rows) h =
      let (first, others) = or_false (conflict a r) (any (conflict a) rows) h in
      rw (conflict_kept a r first) (any_settled a rows others)

  IsUnique-updated :
      (rows : List JoinRequest)
      → IsUnique conflict rows
      → IsUnique conflict (update_pending chosen set rows)
  unfolding update_pending
  IsUnique-updated [] u = tt
  IsUnique-updated (r ∷ rows) u = elim (Bool-cases (chosen r && is_pending r.status)) [
    | inl hit ↦
        rw hit (any_updated (set r) rows (any_settled r rows u.0), IsUnique-updated rows u.1)
    | inr miss ↦ rw miss (any_updated r rows u.0, IsUnique-updated rows u.1)
  ]

decided-KeepsKeys :
    (verdict : Verdict) (user : String) (now : ℕ) → KeepsKeys (decided verdict user now)
unfolding decided
decided-KeepsKeys verdict user now = record {
  id = λ r. refl;
  team = λ r. refl;
  requester = λ r. refl;
  settled = λ r. settles verdict;
}
  where
    settles : (v : Verdict) → is_pending (status_of v) ≡ false
    settles approve = refl
    settles decline = refl
    settles withdraw = refl

close_row-KeepsKeys : (reason : ClosedReason) (now : ℕ) → KeepsKeys (close_row reason now)
unfolding close_row
close_row-KeepsKeys reason now = record {
  id = λ r. refl;
  team = λ r. refl;
  requester = λ r. refl;
  settled = λ r. refl;
}

close_each-IsUnique :
    (closures : List Closure) (reasons : List ClosedReason) (now : ℕ) (rows : List JoinRequest)
    → IsUnique conflict rows
    → IsUnique conflict (close_each closures reasons now rows)
unfolding close_each
close_each-IsUnique closures [] now rows u = u
close_each-IsUnique closures (reason ∷ reasons) now rows u =
    close_each-IsUnique closures reasons now _ (
      IsUnique-updated (closes closures reason) (close_row reason now)
        (close_row-KeepsKeys reason now) rows u)

create-IsUnique :
    (input : NewRequest) (env : TeamEnv) (db : TeamDb)
    → IsUnique conflict db.requests
    → IsUnique conflict (create input env db).1.requests
unfolding create
create-IsUnique input env db u =
    elim (Bool-cases (any (conflict (new_request input env)) db.requests)) [
      | inl taken ↦ rw taken u
      | inr free ↦ rw free (IsUnique-added (new_request input env) db.requests u free)
    ]

pub endorse-requests :
    (i user : String) (env : TeamEnv) (db : TeamDb)
    → (or_unchanged db (endorse i user env db)).requests ≡ db.requests
unfolding endorse
endorse-requests i user env db = ground arith

run_call-IsUnique :
    (c : TeamCall) (env : TeamEnv) (db : TeamDb)
    → IsUnique conflict db.requests
    → IsUnique conflict (run_call c env db).requests
unfolding run_call settle close
run_call-IsUnique (create_call input) env db u = create-IsUnique input env db u
run_call-IsUnique (settle_call i verdict user) env db u =
    IsUnique-updated (λ (r : JoinRequest). r.id == i) (decided verdict user env.now)
      (decided-KeepsKeys verdict user env.now) db.requests u
run_call-IsUnique (close_call closures) env db u =
    close_each-IsUnique closures (distinct_reasons [] closures) env.now db.requests u
run_call-IsUnique (endorse_call i user) env db u = rw (endorse-requests i user env db) u

-- Whatever calls are made one after the other, failing or not, from tables that keep the two unique
-- indexes of requests: no two requests have one identifier, and no requester has two pending
-- requests for one team.
pub run_calls-IsUnique :
    (calls : List (TeamCall × TeamEnv)) (db : TeamDb)
    → IsUnique conflict db.requests
    → IsUnique conflict (run_calls calls db).requests
unfolding run_calls
run_calls-IsUnique [] db u = u
run_calls-IsUnique ((c, env) ∷ calls) db u =
    run_calls-IsUnique calls (run_call c env db) (run_call-IsUnique c env db u)
