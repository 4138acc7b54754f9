-- ===== src/Proposals/Guards.antt =====
-- Who may make the requests that plugins/proposals/src/index.ts guards by requireAdmin.
use citynode_app.Prelude.{
  String, ℕ, ◌≡◌, refl, inl, inr, Bool, true, false, Option, none, some, Bool-cases,
}
use citynode_app.Proposals.Types.{Env, Db}
use citynode_app.Proposals.Service
use citynode_app.Proposals.Service.{Answer}
use citynode_app.Proposals.Session.{
  User, Session, unauthorized, forbidden, nonempty, has_admin_role, signed_in, admin_only,
  require_admin,
}
use citynode_app.Proposals.Router.{
  Request, Served, serve, guarded, published, reviewed_by, step_by, turned_away,
}

-- A user with an identifier.
abbrev pub known : Option User → Option String → Bool
known (some u) (some i) = true
known _ _ = false

-- The action that the event of a request names.
abbrev pub action_of : Request → String
action_of (Request.approve input) = "approved"
action_of (Request.reject input reason) = "rejected"
action_of (Request.reopen input) = "reopened"
action_of (Request.remove input) = "removed"
action_of (Request.mark_applied input resource) = "applied"
action_of (Request.mark_apply_failed input error) = "apply_failed"
action_of (Request.mark_removed input) = "removed"
action_of (Request.mark_remove_failed input error) = "remove_failed"
action_of (Request.record_apply_step input) = "apply_step_recorded"

-- What the service replies to a request on behalf of a user.
abbrev pub reply_to : Request → User → String → Env → Db → Answer
reply_to (Request.approve input) user id env db =
    Service.approve env db (reviewed_by input (user, id))
reply_to (Request.reject input reason) user id env db =
    Service.reject env db (reviewed_by input (user, id)) reason
reply_to (Request.reopen input) user id env db =
    Service.reopen env db (reviewed_by input (user, id))
reply_to (Request.remove input) user id env db =
    Service.remove env db (reviewed_by input (user, id))
reply_to (Request.mark_applied input resource) user id env db =
    Service.mark_applied env db input resource
reply_to (Request.mark_apply_failed input error) user id env db =
    Service.mark_apply_failed env db input error
reply_to (Request.mark_removed input) user id env db = Service.mark_removed env db input
reply_to (Request.mark_remove_failed input error) user id env db =
    Service.mark_remove_failed env db input error
reply_to (Request.record_apply_step input) user id env db =
    Service.record_apply_step env db (step_by input (user, id))

-- What is served to a session where only an admin is let pass.
pub data IsGuarded (db : Db) (s : Session) (body : User → String → Served) (served : Served)
    : Type 0 where
  anonymous :
      known s.user (nonempty s.user_id) ≡ false
      → served ≡ turned_away unauthorized db
      → IsGuarded db s body served
  not_admin :
      known s.user (nonempty s.user_id) ≡ true
      → has_admin_role s.user ≡ false
      → served ≡ turned_away forbidden db
      → IsGuarded db s body served
  let_pass :
      (user : User) (id : String)
      → s.user ≡ some user
      → nonempty s.user_id ≡ some id
      → has_admin_role (some user) ≡ true
      → served ≡ body user id
      → IsGuarded db s body served

module _ (at : ℕ) (env : Env) (db : Db) (s : Session) where
  guarded-IsGuarded :
      (body : User → String → Served)
      → IsGuarded db s body (guarded at env db (require_admin s) (λ who. body who.0 who.1))
  unfolding require_admin signed_in
  guarded-IsGuarded body = cases s.user (nonempty s.user_id) refl refl
    where
      cases :
          (user : Option User) (id : Option String)
          → s.user ≡ user
          → nonempty s.user_id ≡ id
          → IsGuarded db s body
              (guarded at env db (admin_only (signed_in user id)) (λ who. body who.0 who.1))
      cases none id u i = anonymous (rw u refl) refl
      cases (some user) none u i = anonymous (rw (u, i) refl) refl
      cases (some user) (some id) u i = elim (Bool-cases (has_admin_role (some user))) [
        | inl admin ↦ rw admin (let_pass user id u i admin refl)
        | inr other ↦ rw other (not_admin (rw (u, i) refl) (rw u other) refl)
      ]

  -- Whatever session makes one of the nine requests that review a proposal or report on it: it is
  -- turned away as unauthorized exactly where it names no user, and as forbidden where the user has
  -- no admin role, with the tables as they were and no event; or it is an admin's, and what the
  -- service replies to that request on the admin's behalf is published under the request's action.
  pub review_needs_admin :
      (request : Request)
      → IsGuarded db s
          (λ user id. published (action_of request) at (reply_to request user id env db))
          (serve at env db s request)
  unfolding serve
  review_needs_admin (Request.approve input) = guarded-IsGuarded _
  review_needs_admin (Request.reject input reason) = guarded-IsGuarded _
  review_needs_admin (Request.reopen input) = guarded-IsGuarded _
  review_needs_admin (Request.remove input) = guarded-IsGuarded _
  review_needs_admin (Request.mark_applied input resource) = guarded-IsGuarded _
  review_needs_admin (Request.mark_apply_failed input error) = guarded-IsGuarded _
  review_needs_admin (Request.mark_removed input) = guarded-IsGuarded _
  review_needs_admin (Request.mark_remove_failed input error) = guarded-IsGuarded _
  review_needs_admin (Request.record_apply_step input) = guarded-IsGuarded _
