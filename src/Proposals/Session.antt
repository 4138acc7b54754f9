-- ===== src/Proposals/Session.antt =====
-- Who calls: the request context of plugins/proposals/src/index.ts and the guards before a handler.
use citynode_app.Prelude.{
  String, Bool, true, false, Option, none, some, List, ◌==◌, ◌||◌, or_else, if◌then◌else◌,
}
use citynode_app.Proposals.Types.{ResubmissionPolicy, ProposalError, Actor}

pub record User : Type 0 where
  pub role : Option String
  pub name : Option String

pub record Account : Type 0 where
  pub account_id : String
  pub network : Option String
  pub is_primary : Bool

pub record Near : Type 0 where
  pub primary_account_id : Option String
  pub linked_accounts : List Account

-- ProposalContext, of an API key its identifier
pub record Session : Type 0 where
  pub user : Option User
  pub user_id : Option String
  pub near : Option Near
  pub api_key : Option String
  pub allow_private_submission : Bool
  pub resubmission_policy : Option ResubmissionPolicy

-- the code of an error, or the error of the service
pub data Refusal : Type 0 where
  unauthorized forbidden bad_request service_unavailable internal : Refusal
  refused_by_service : ProposalError → Refusal

pub data Response {ℓ} (A : Type ℓ) : Type ℓ where
  granted : A → Response A
  refused : Refusal → Response A

-- a text is true unless it is absent or empty
abbrev pub nonempty : Option String → Option String
nonempty none = none
nonempty (some s) = if s == "" then none else some s

abbrev pub actor_of : User → Actor
actor_of u = record { name = u.name }

abbrev pub primary_account : Session → Option String
primary_account s = elim s.near [ none ↦ none | some n ↦ n.primary_account_id ]

-- `context.user?.role === "admin"`
abbrev pub has_admin_role : Option User → Bool
has_admin_role none = false
has_admin_role (some u) = elim u.role [ none ↦ false | some r ↦ r == "admin" ]

-- requireAuth: the user and the identifier
unfoldable pub signed_in : Option User → Option String → Response (User × String)
signed_in none id = refused unauthorized
signed_in (some u) none = refused unauthorized
signed_in (some u) (some id) = granted (u, id)

unfoldable pub require_auth : Session → Response (User × String)
unfolding signed_in
require_auth s = signed_in s.user (nonempty s.user_id)

-- `user.role !== "admin"` of someone who is signed in
abbrev pub admin_only : Response (User × String) → Response (User × String)
admin_only (refused r) = refused r
admin_only (granted who) = if has_admin_role (some who.0) then granted who else refused forbidden

unfoldable pub require_admin : Session → Response (User × String)
unfolding signed_in
require_admin s = admin_only (signed_in s.user (nonempty s.user_id))

abbrev is_given {ℓ} : {A : Type ℓ} → Option A → Bool
is_given none = false
is_given (some a) = true

-- requireAuthOrApiKey
unfoldable pub has_auth_or_api_key : Session → Bool
has_auth_or_api_key s = is_given s.user || is_given (nonempty s.user_id) || is_given s.api_key

unfoldable pub viewer_id : Session → Option String
viewer_id s = or_else (primary_account s) (or_else s.user_id s.api_key)
