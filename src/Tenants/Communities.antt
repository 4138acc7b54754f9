-- ===== src/Tenants/Communities.antt =====
-- applyNodeProposal and releaseNodeProposal of api/src/services/tenants.ts. A community is a tenant
-- with its node, its binding and perhaps its default validator. Calls of others may commit between
-- the selects of a transaction, on the tables `seen`, and its inserts, on the tables `db`.
use citynode_app.Prelude.{
  String, Bool, true, false, Option, none, some, List, [], ◌∷◌, if◌then◌else◌, ◌==◌, ◌&&◌, ◌||◌,
  not, any, find, filter, opt_eq, length, leb, or_else,
}
use citynode_app.Json.{Json, null, str, num, bool, arr, obj}
use citynode_app.Geography.Types.{Metadata, Node, Validator, ValidatorRole}
use citynode_app.Geography.Tree.{node_by_id, child_of}
use citynode_app.Geography.Nodes.{get_key, kind_of}
use citynode_app.Tenants.Types.{
  Tenant, TenantStatus, OwnerKind, Binding, TenantsDb, TenantsEnv, TenantsResult, ok, err, ◌>>=◌,
  ◌>>◌, require, account_taken, slug_taken, hostname_taken, parent_not_found, invalid_parent,
  unique_violation, resources_exist,
}
use citynode_app.Tenants.Rows.{
  insert_tenant, insert_community_node, insert_default_validator, insert_binding, node_of,
  delete_tenant,
}
use citynode_app.Tenants.Hostnames.{has_dot}
use citynode_app.Tenants.Bindings.{new_binding}

pub data NodeKind : Type 0 where
  country state city : NodeKind

pub record ProposalInput : Type 0 where
  pub kind : NodeKind
  pub name : String
  pub slug : String
  pub parent_id : Option String
  pub org_id : String
  pub account_id : String
  pub hostname : String
  pub pool_account_id : Option String
  pub proposal_id : Option String

-- an optional text that is there and not empty
abbrev pub given : Option String → Option String
given none = none
given (some s) = if s == "" then none else some s

abbrev pub kind_text : NodeKind → String
kind_text country = "country"
kind_text state = "state"
kind_text city = "city"

-- `metadata ->> key`; the text of a nested value is a parameter
unfoldable pub column_text : (Json → String) → Option Json → Option String
column_text nested none = none
column_text nested (some null) = none
column_text nested (some (str s)) = some s
column_text nested (some (num s)) = some s
column_text nested (some (bool b)) = some (if b then "true" else "false")
column_text nested (some (arr items)) = some (nested (arr items))
column_text nested (some (obj fields)) = some (nested (obj fields))

abbrev pub has_tenant : Node → Bool
has_tenant n = elim n.tenant_id [ none ↦ false | some t ↦ true ]

unfoldable pub is_linked : (Json → String) → String → Node → Bool
unfolding column_text get_key
is_linked nested p n =
    opt_eq (column_text nested (get_key "communityProposalId" n.metadata)) (some p) && has_tenant n

unfoldable pub linked_node : (Json → String) → String → List Node → Option Node
unfolding is_linked
linked_node nested p nodes = find (is_linked nested p) nodes

abbrev pub is_dao : OwnerKind → Bool
is_dao OwnerKind.dao = true
is_dao _ = false

-- a tenant that the DAO account of an organization owns and that is not deleted
abbrev pub is_owned : ProposalInput → Tenant → Bool
is_owned input t =
    t.account_id == input.account_id
    && opt_eq t.org_id (some input.org_id)
    && is_dao t.owner_kind
    && elim t.deleted_at [ none ↦ true | some instant ↦ false ]

abbrev pub owned_node : ProposalInput → TenantsDb → Option Node
owned_node input db =
    find (λ (n : Node). any (λ (t : Tenant). node_of t.id n && is_owned input t) db.tenants)
      db.nodes

abbrev pub linked_or_owned :
    (Json → String) → ProposalInput → TenantsDb → Option String → Option Node
linked_or_owned nested input db none = none
linked_or_owned nested input db (some p) =
    or_else (linked_node nested p db.nodes) (owned_node input db)

unfoldable pub proposal_node : (Json → String) → ProposalInput → TenantsDb → Option Node
unfolding linked_node
proposal_node nested input db = linked_or_owned nested input db (given input.proposal_id)

unfoldable pub resources_free : ProposalInput → TenantsDb → TenantsResult (Unit {0})
resources_free input seen =
    require (not (any (λ (t : Tenant). t.account_id == input.account_id) seen.tenants))
      account_taken
    >> require (not (any (λ (n : Node). n.slug == input.slug) seen.nodes)) slug_taken
    >> require (not (any (λ (b : Binding). b.hostname == input.hostname) seen.bindings))
        hostname_taken

abbrev pub kind_if_found : Option Node → TenantsResult (Option String)
kind_if_found none = err parent_not_found
kind_if_found (some n) = ok (kind_of n.metadata)

unfoldable pub parent_kind : Option String → List Node → TenantsResult (Option String)
unfolding node_by_id kind_of
parent_kind none nodes = ok none
parent_kind (some p) nodes = if p == "" then ok none else kind_if_found (node_by_id p nodes)

abbrev pub is_none : Option String → Bool
is_none none = true
is_none (some s) = false

abbrev pub parent_allowed : NodeKind → Option String → Option String → Bool
parent_allowed country parent kind = is_none parent
parent_allowed state parent kind = opt_eq kind (some "country")
parent_allowed city parent kind =
    is_none parent || opt_eq kind (some "country") || opt_eq kind (some "state")

abbrev pub new_tenant : ProposalInput → TenantsEnv → Tenant
new_tenant input env = record {
  id = env.tenant_id;
  account_id = input.account_id;
  org_id = some input.org_id;
  owner_user_id = none;
  name = input.name;
  status = TenantStatus.active;
  owner_kind = OwnerKind.dao;
  allow_ui_overrides = true;
  allow_backend_overrides = false;
  allow_ssr = false;
  created_at = env.now;
  updated_at = env.now;
  deleted_at = none;
}

-- `...(value ? { key: value } : {})`
abbrev pub text_entry : String → Option String → Metadata → Metadata
text_entry key none rest = rest
text_entry key (some value) rest = (key, str value) ∷ rest

abbrev pub new_metadata : ProposalInput → Metadata
new_metadata input =
    ("kind", str (kind_text input.kind))
    ∷ text_entry "communityProposalId" (given input.proposal_id)
        (text_entry "poolAccountId" (given input.pool_account_id) [])

abbrev pub community_node : ProposalInput → TenantsEnv → Node
community_node input env = record {
  id = env.node_id;
  slug = input.slug;
  name = input.name;
  parent_id = input.parent_id;
  tenant_id = some env.tenant_id;
  metadata = new_metadata input;
  created_at = env.now;
  updated_at = env.now;
}

abbrev pub pool_validator : String → TenantsEnv → Validator
pool_validator pool env = record {
  id = env.validator_id;
  node_id = env.node_id;
  account_id = pool;
  network = "mainnet";
  protocol = "near";
  role = ValidatorRole.official;
  is_default = true;
  metadata = [];
  created_at = env.now;
  updated_at = env.now;
}

abbrev pub insert_pool : Option String → TenantsEnv → TenantsDb → TenantsResult TenantsDb
insert_pool none env db = ok db
insert_pool (some pool) env db = insert_default_validator (pool_validator pool env) db

abbrev pub primary_binding : ProposalInput → TenantsEnv → Binding
primary_binding input env =
    new_binding env.tenant_id input.hostname true (not (has_dot input.hostname)) env

unfoldable pub insert_community : ProposalInput → TenantsEnv → TenantsDb → TenantsResult TenantsDb
unfolding insert_tenant insert_community_node insert_default_validator insert_binding has_dot
insert_community input env db = do
  with_tenant ← insert_tenant (new_tenant input env) db
  with_node ← insert_community_node (community_node input env) with_tenant
  with_pool ← insert_pool (given input.pool_account_id) env with_node
  insert_binding (primary_binding input env) with_pool

unfoldable pub create_community :
    ProposalInput → TenantsEnv → TenantsDb → TenantsDb → TenantsResult (String × TenantsDb)
unfolding resources_free parent_kind insert_community
create_community input env seen db =
    resources_free input seen >> parent_kind input.parent_id seen.nodes >>= λ kind.
    require (parent_allowed input.kind input.parent_id kind) invalid_parent
    >> insert_community input env db
    >>= λ after. ok (env.node_id, after)

-- the node that the proposal resumes, or else a new community
abbrev pub resumed :
    Option Node
    → TenantsDb
    → TenantsResult (String × TenantsDb)
    → TenantsResult (String × TenantsDb)
resumed none db created = created
resumed (some n) db created = ok (n.id, db)

-- after a unique violation another call may have created the node
abbrev pub recovered :
    Option Node
    → TenantsDb
    → TenantsResult (String × TenantsDb)
    → TenantsResult (String × TenantsDb)
recovered (some n) db (err unique_violation) = ok (n.id, db)
recovered none db (err unique_violation) = err resources_exist
recovered o db answer = answer

unfoldable pub apply_proposal :
    (Json → String)
    → ProposalInput
    → TenantsEnv
    → TenantsDb
    → TenantsDb
    → TenantsResult (String × TenantsDb)
unfolding proposal_node create_community
apply_proposal nested input env seen db =
    recovered (proposal_node nested input db) db
      (resumed (proposal_node nested input seen) db (create_community input env seen db))

pub data KeptReason : Type 0 where
  not_found in_use : KeptReason

-- the tables after a release, or why the community is kept
pub data Released : Type 0 where
  released : Released
  kept : KeptReason → Released

abbrev pub in_use_by : Node → String → TenantsDb → Bool
in_use_by n t db =
    any (child_of n.id) db.nodes || not (leb (length (filter (node_of t) db.nodes)) 1)

abbrev pub release_of : Option Node → TenantsDb → TenantsResult (Released × TenantsDb)
release_of none db = ok (kept KeptReason.not_found, db)
release_of (some n) db = elim n.tenant_id [
  | none ↦ ok (kept KeptReason.not_found, db)
  | some t ↦
      if in_use_by n t db
      then ok (kept KeptReason.in_use, db)
      else (delete_tenant t db >>= λ after. ok (Released.released, after))
]

unfoldable pub release_proposal :
    (Json → String) → String → TenantsDb → TenantsResult (Released × TenantsDb)
unfolding linked_node delete_tenant
release_proposal nested proposal_id db = release_of (linked_node nested proposal_id db.nodes) db
