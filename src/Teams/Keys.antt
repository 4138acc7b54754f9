-- ===== src/Teams/Keys.antt =====
-- The unique indexes and the foreign key of the tables of api/src/services/team-join-requests.ts, as
-- what they mean for the rows.
use citynode_app.Prelude.{
  String, ◌≡◌, ◌≢◌, ◌⊎◌, IsPairwise, refl, sym, ap, inl, inr, Bool, true, false, List, [], ◌∷◌,
  arith, ◌==◌, eq_iff, any, Bool-cases, All, All-mono,
}
use citynode_app.Teams.Types.{Status, JoinRequest, Endorsement, TeamDb, TeamEnv, is_pending}
use citynode_app.Teams.Store.{conflict}
use citynode_app.Teams.Tables.{TeamCall, run_calls, IsUnique, or_false, run_calls-IsUnique}
use citynode_app.Teams.Endorsed.{same_endorsement, has_request, run_calls-IsEndorsed}

-- Two requests that have two identifiers, and are not both pending by one requester for one team.
pub record IsApart (a b : JoinRequest) : Type 0 where
  pub ids : a.id ≢ b.id
  pub pending_once :
      a.status ≡ Status.pending
      → b.status ≡ Status.pending
      → a.team_id ≡ b.team_id
      → a.requester_user_id ≢ b.requester_user_id

-- Two endorsements that are not of one request by one user.
abbrev pub IsOther : Endorsement → Endorsement → Type 0
IsOther a b = a.request_id ≡ b.request_id → a.endorser_user_id ≢ b.endorser_user_id

abbrev pub IsStored : List JoinRequest → String → Type 0
IsStored [] i = ⊥
IsStored (r ∷ rows) i = (r.id ≡ i) ⊎ IsStored rows i

pub record IsKeyed (db : TeamDb) : Type 0 where
  pub requests : IsPairwise IsApart db.requests
  pub endorsements : IsPairwise IsOther db.endorsements
  pub stored : All (λ (e : Endorsement). IsStored db.requests e.request_id) db.endorsements

module _ {A : Type 0} (clash : A → A → Bool) (R : A → A → Type 0)
    (iff : (a b : A) → (clash a b ≡ false → R a b) × (R a b → clash a b ≡ false)) where
  any_to : (x : A) (xs : List A) → any (clash x) xs ≡ false → All (R x) xs
  any_to x [] h = tt
  any_to x (y ∷ xs) h =
      let (first, others) = or_false _ _ h in ((iff x y).0 first, any_to x xs others)

  any_from : (x : A) (xs : List A) → All (R x) xs → any (clash x) xs ≡ false
  any_from x [] h = refl
  any_from x (y ∷ xs) h = rw ((iff x y).1 h.0) (any_from x xs h.1)

  IsUnique-IsPairwise : (xs : List A) → IsUnique clash xs → IsPairwise R xs
  IsUnique-IsPairwise [] u = tt
  IsUnique-IsPairwise (x ∷ xs) u = (any_to x xs u.0, IsUnique-IsPairwise xs u.1)

  IsPairwise-IsUnique : (xs : List A) → IsPairwise R xs → IsUnique clash xs
  IsPairwise-IsUnique [] u = tt
  IsPairwise-IsUnique (x ∷ xs) u = (any_from x xs u.0, IsPairwise-IsUnique xs u.1)

is_pending_lem : (s : Status) → is_pending s ≡ true → s ≡ Status.pending
is_pending_lem Status.pending h = refl
is_pending_lem Status.approved h = cc
is_pending_lem Status.declined h = cc
is_pending_lem Status.withdrawn h = cc
is_pending_lem Status.closed h = cc

IsApart-conflict : (a b : JoinRequest) → IsApart a b → conflict a b ≡ false
IsApart-conflict a b k = ground (
  arith,
  k.ids,
  k.pending_once,
  is_pending_lem a.status,
  is_pending_lem b.status,
  eq_iff a.id b.id,
  eq_iff a.team_id b.team_id,
  eq_iff a.requester_user_id b.requester_user_id,
)

pub conflict-IsApart :
    (a b : JoinRequest)
    → (conflict a b ≡ false → IsApart a b) × (IsApart a b → conflict a b ≡ false)
conflict-IsApart a b = (
  λ h. record {
    ids = λ e. ground (arith, h, (eq_iff a.id b.id).1 e);
    pending_once = λ p q t u. ground (
      arith,
      h,
      ap is_pending p,
      ap is_pending q,
      (eq_iff a.team_id b.team_id).1 t,
      (eq_iff a.requester_user_id b.requester_user_id).1 u,
    );
  },
  IsApart-conflict a b,
)

same_endorsement-IsOther :
    (a b : Endorsement)
    → (same_endorsement a b ≡ false → IsOther a b) × (IsOther a b → same_endorsement a b ≡ false)
same_endorsement-IsOther a b = (
  λ h e f. ground (
    arith,
    h,
    (eq_iff b.request_id a.request_id).1 (sym e),
    (eq_iff b.endorser_user_id a.endorser_user_id).1 (sym f),
  ),
  λ k.
      ground
        (arith, k, eq_iff b.request_id a.request_id, eq_iff b.endorser_user_id a.endorser_user_id),
)

stored_to : (rows : List JoinRequest) (i : String) → has_request rows i ≡ true → IsStored rows i
stored_to [] i h = cc
stored_to (r ∷ rows) i h = elim (Bool-cases (r.id == i)) [
  | inl here ↦ inl ((eq_iff r.id i).0 here)
  | inr other ↦ inr (stored_to rows i (rw other at h))
]

stored_from : (rows : List JoinRequest) (i : String) → IsStored rows i → has_request rows i ≡ true
stored_from [] i h = absurd h
stored_from (r ∷ rows) i (inl here) = rw ((eq_iff r.id i).1 here) refl
stored_from (r ∷ rows) i (inr later) = ground (arith, stored_from rows i later)

-- Whatever calls are made one after the other, failing or not, from tables where it is so: no two
-- requests have one identifier, no requester has two pending requests for one team, no user has
-- endorsed a request twice, and every endorsement is of a stored request.
pub run_calls-IsKeyed :
    (calls : List (TeamCall × TeamEnv)) (db : TeamDb) → IsKeyed db → IsKeyed (run_calls calls db)
run_calls-IsKeyed calls db k =
    let after = run_calls calls db in
    let endorsed = run_calls-IsEndorsed calls db (record {
      once =
          IsPairwise-IsUnique same_endorsement IsOther same_endorsement-IsOther db.endorsements
            k.endorsements;
      owned =
          All-mono (λ (e : Endorsement) h. stored_from db.requests e.request_id h) db.endorsements
            k.stored;
    }) in
    record {
      requests = IsUnique-IsPairwise conflict IsApart conflict-IsApart after.requests (
          run_calls-IsUnique calls db
            (IsPairwise-IsUnique conflict IsApart conflict-IsApart db.requests k.requests));
      endorsements =
          IsUnique-IsPairwise same_endorsement IsOther same_endorsement-IsOther after.endorsements
            endorsed.once;
      stored =
          All-mono (λ (e : Endorsement) h. stored_to after.requests e.request_id h)
            after.endorsements endorsed.owned;
    }
