-- ===== src/Proposals/Applicants.antt =====
-- Applications for a node: services/node-applicant.ts, and the checks of `propose` in
-- plugins/proposals/src/index.ts. The schema of the payload and the chain's view call are
-- parameters.
use citynode_app.Prelude.{
  String, Bool, true, false, Option, none, some, List, [], ◌∷◌, ◌==◌, not, ◌&&◌, any, find,
  if◌then◌else◌,
}
use citynode_app.Proposals.Types.{Json, str, obj, Fields, end, field}
use citynode_app.Proposals.Session.{
  Account, Session, Response, granted, refused, unauthorized, forbidden, bad_request,
  service_unavailable, nonempty,
}

-- A payload that the schema accepts, with all that it parsed as an object.
pub record Application : Type 0 where
  pub slug : String
  pub account_id : String
  pub submitter_account_id : Option String
  pub fields : Fields

-- `kind` of a role: absent, null, a text, or an object that may have a group
pub data RoleKind : Type 0 where
  no_kind null_kind : RoleKind
  text_kind : String → RoleKind
  object_kind : Option (List String) → RoleKind

-- the reply to the view call: a policy, if there is one, with its roles, if it has them
pub data View : Type 0 where
  viewed : Option (Option (List RoleKind)) → View
  call_failed unreachable : View

unfoldable pub names_applicant : String → RoleKind → Bool
names_applicant account (object_kind (some group)) = any (λ member. member == account) group
names_applicant account _ = false

-- `policy.roles.some(…)`, which throws on the first `kind: null` unless an earlier role names the account
unfoldable pub some_role : String → List RoleKind → Option Bool
some_role account [] = some false
some_role account (null_kind ∷ roles) = none
some_role account (kind ∷ roles) =
    let rest = some_role account roles in if names_applicant account kind then some true else rest

unfoldable pub is_explicit_member : String → Option (Option (List RoleKind)) → Option Bool
unfolding some_role
is_explicit_member account (some (some roles)) = some_role account roles
is_explicit_member account _ = some false

abbrev pub checked : Option Bool → Response Bool
checked none = refused service_unavailable
checked (some member) = granted member

unfoldable pub verify_node_applicant : View → String → Response Bool
unfolding is_explicit_member
verify_node_applicant (viewed policy) account = checked (is_explicit_member account policy)
verify_node_applicant call_failed account = refused bad_request
verify_node_applicant unreachable account = refused service_unavailable

pub data Network : Type 0 where
  mainnet testnet : Network

-- `identity?.network === "testnet"`
abbrev network_of : Option Account → Network
network_of none = mainnet
network_of (some a) = elim a.network [
  | none ↦ mainnet
  | some n ↦ if n == "testnet" then testnet else mainnet
]

abbrev linked : Session → List Account
linked s = elim s.near [ none ↦ [] | some n ↦ n.linked_accounts ]

unfoldable pub applicant_network : Session → String → Network
applicant_network s account =
    network_of (find (λ (a : Account). a.account_id == account && a.is_primary) (linked s))

-- `{ ...fields, name: value }`
unfoldable pub put_field : String → Json → Fields → Fields
put_field name value end = field name value end
put_field name value (field k old rest) =
    if k == name then field k value rest else field k old (put_field name value rest)

-- another account named as the submitter
abbrev pub names_other : Option String → String → Bool
names_other none account = false
names_other (some named) account = not (named == account)

abbrev pub stored_payload : Application → String → String → Json
stored_payload app account user = obj (
    put_field "applicantUserId" (str user)
      (put_field "submitterAccountId" (str account) app.fields))

abbrev pub verified : Response Bool → Json → Response Json
verified (refused r) payload = refused r
verified (granted eligible) payload = if eligible then granted payload else refused forbidden

module _ (parse : Json → Option Application) (view : String → Network → View) where
  -- The checks of a payload that the schema has parsed.
  unfoldable pub application_payload :
      Session → String → String → String → Option Application → Response Json
  unfolding applicant_network verify_node_applicant
  application_payload s user account entity none = refused bad_request
  application_payload s user account entity (some app) =
      if not (app.slug == entity)
      then refused bad_request
      else if names_other (nonempty app.submitter_account_id) account
      then refused forbidden
      else verified
          (verify_node_applicant (view app.account_id (applicant_network s account)) account)
          (stored_payload app account user)

  unfoldable pub node_payload :
      Session → String → Json → Option String → Option String → Response Json
  unfolding application_payload
  node_payload s entity payload (some user) (some account) =
      application_payload s user account entity (parse payload)
  node_payload s entity payload _ _ = refused unauthorized
