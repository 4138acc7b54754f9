-- ===== src/Proposals/Access.antt =====
-- Who may do what through plugins/proposals/src/index.ts.
use citynode_app.Prelude.{
  ◌⊎◌, String, ℕ, ◌≡◌, refl, inl, inr, Bool, true, false, Option, none, some, List, ◌==◌, eq_iff,
  not, ◌&&◌, any, Bool-cases,
}
use citynode_app.Proposals.Types.{Json, Env, Db}
use citynode_app.Proposals.Service
use citynode_app.Proposals.Service.{Proposal, Answer, loaded, failed, died}
use citynode_app.Proposals.Session.{
  Session, Response, granted, refused, Refusal, unauthorized, bad_request, nonempty,
  primary_account, has_auth_or_api_key,
}
use citynode_app.Proposals.Applicants.{
  Application, RoleKind, View, viewed, call_failed, unreachable, Network, applicant_network,
  is_explicit_member, verify_node_applicant, application_payload, node_payload, stored_payload,
  checked, verified, names_other,
}
use citynode_app.Proposals.Router.{
  published, ProposeRequest, propose, payload_to_store, turned_away, submission_of, submitted,
}

-- A proposal of a node that is let through: the session names a user and a NEAR account, the schema
-- accepts the payload, which is about the entity, the policy of its DAO names the account, and the
-- service proposes the payload with both names in it.
pub record IsAdmitted (parse : Json → Option Application) (view : String → Network → View)
    (s : Session) (input : ProposeRequest) (payload : Json) : Type 0 where
  pub account : String
  pub user : String
  pub app : Application
  pub policy : Option (Option (List RoleKind))
  pub signed : nonempty (primary_account s) ≡ some account
  pub known_as : nonempty s.user_id ≡ some user
  pub parsed : parse input.payload ≡ some app
  pub about : app.slug ≡ input.entity_id
  pub answer : view app.account_id (applicant_network s account) ≡ viewed policy
  pub member : is_explicit_member account policy ≡ some true
  pub stored : payload ≡ stored_payload app account user

abbrev pub IsChecked : Response Json → (Json → Type 0) → Type 0
IsChecked (refused r) P = Unit
IsChecked (granted payload) P = P payload

module _ (parse : Json → Option Application) (view : String → Network → View) (s : Session)
    (input : ProposeRequest) where
  viewed_lem :
      (user account : String) (app : Application)
      → nonempty s.user_id ≡ some user
      → nonempty (primary_account s) ≡ some account
      → parse input.payload ≡ some app
      → app.slug ≡ input.entity_id
      → (v : View) → view app.account_id (applicant_network s account) ≡ v
      → IsChecked
          (verified (verify_node_applicant v account) (stored_payload app account user))
          (IsAdmitted parse view s input)
  unfolding verify_node_applicant
  viewed_lem user account app u a e same call_failed h = tt
  viewed_lem user account app u a e same unreachable h = tt
  viewed_lem user account app u a e same (viewed policy) h =
      member_lem (is_explicit_member account policy) refl
    where
      member_lem :
          (found : Option Bool)
          → is_explicit_member account policy ≡ found
          → IsChecked
              (verified (checked found) (stored_payload app account user))
              (IsAdmitted parse view s input)
      member_lem none thrown = tt
      member_lem (some false) stranger = tt
      member_lem (some true) member = record {
        account = account;
        user = user;
        app = app;
        policy = policy;
        signed = a;
        known_as = u;
        parsed = e;
        about = same;
        answer = h;
        member = member;
        stored = refl;
      }

  application_lem :
      (user account : String)
      → nonempty s.user_id ≡ some user
      → nonempty (primary_account s) ≡ some account
      → (o : Option Application) → parse input.payload ≡ o
      → IsChecked
          (application_payload parse view s user account input.entity_id o)
          (IsAdmitted parse view s input)
  unfolding application_payload
  application_lem user account u a none e = tt
  application_lem user account u a (some app) e = elim (Bool-cases (app.slug == input.entity_id)) [
    | inr other ↦ rw other tt
    | inl same ↦ elim (Bool-cases (names_other (nonempty app.submitter_account_id) account)) [
      | inl another ↦ rw (same, another) tt
      | inr own ↦
          rw (same, own)
            (viewed_lem user account app u a e ((eq_iff app.slug input.entity_id).0 same) _ refl)
    ]
  ]

  node_payload_lem :
      (user account : Option String)
      → nonempty s.user_id ≡ user
      → nonempty (primary_account s) ≡ account
      → IsChecked
          (node_payload parse view s input.entity_id input.payload user account)
          (IsAdmitted parse view s input)
  unfolding node_payload
  node_payload_lem none account u a = tt
  node_payload_lem (some user) none u a = tt
  node_payload_lem (some user) (some account) u a =
      application_lem user account u a (parse input.payload) refl

  payload_lem :
      input.plugin_id ≡ "node"
      → IsChecked (payload_to_store parse view s input) (IsAdmitted parse view s input)
  unfolding payload_to_store
  payload_lem node =
      rw ((eq_iff input.plugin_id "node").1 node)
        (node_payload_lem (nonempty s.user_id) (nonempty (primary_account s)) refl refl)

-- Proposing a node is turned away, with the tables as they were and no event published, or it is let
-- through: the caller has a user and a NEAR account, the payload is accepted by the schema and is
-- about the entity, the policy of its DAO names the account explicitly, and the service proposes
-- the payload that names both, whose reply is published.
pub node_needs_member :
    (at : ℕ) (env : Env) (db : Db) (private_plugin_ids : List String)
    (parse : Json → Option Application) (view : String → Network → View) (s : Session)
    (input : ProposeRequest)
    → input.plugin_id ≡ "node"
    → ((r : Refusal) × (propose at env db private_plugin_ids parse view s input ≡ turned_away r db))
      ⊎ ((payload : Json) × IsAdmitted parse view s input payload
          × (propose at env db private_plugin_ids parse view s input
              ≡ published "proposed" at (Service.propose env db (submission_of s input payload))))
unfolding propose
node_needs_member at env db private_plugin_ids parse view s input node =
    elim (Bool-cases (has_auth_or_api_key s)) [
      | inr nobody ↦ inl (unauthorized, rw nobody)
      | inl somebody ↦
          elim (Bool-cases (
            any (λ p. p == input.plugin_id) private_plugin_ids && not s.allow_private_submission)) [
              | inl barred ↦ inl (bad_request, rw (somebody, barred))
              | inr open_to ↦
                  rw (somebody, open_to)
                    (let_through (payload_to_store parse view s input)
                      (payload_lem parse view s input node))
            ]
    ]
  where
    let_through :
        (r : Response Json)
        → IsChecked r (IsAdmitted parse view s input)
        → ((e : Refusal) × (submitted at env db s input r ≡ turned_away e db))
          ⊎ ((payload : Json) × IsAdmitted parse view s input payload
              × (submitted at env db s input r
                  ≡ published "proposed" at
                      (Service.propose env db (submission_of s input payload))))
    let_through (refused e) h = inl (e, refl)
    let_through (granted payload) h = inr (payload, h, refl)
