-- ===== src/Tenants/Apps.antt =====
-- listTenantApps of api/src/services/tenants.ts: the active tenants with their primary host name and a
-- node of theirs, each account once.
use citynode_app.Prelude.{
  ℕ, String, Bool, true, false, Option, none, some, List, [], ◌∷◌, ◌++◌, map, if◌then◌else◌, ◌==◌,
  ◌&&◌, ◌||◌, filter,
}
use citynode_app.Geography.Types.{Node}
use citynode_app.Geography.Tree.{member}
use citynode_app.Geography.Nodes.{kind_of}
use citynode_app.Tenants.Types.{Tenant, TenantStatus, active, OwnerKind, Binding, TenantsDb}
use citynode_app.Tenants.Rows.{node_of}

pub record AppNode : Type 0 where
  pub id : String
  pub slug : String
  pub kind : Option String
  pub name : String

pub record TenantApp : Type 0 where
  pub account_id : String
  pub name : String
  pub status : TenantStatus
  pub owner_kind : OwnerKind
  pub hostname : Option String
  pub node : Option AppNode
  pub created_at : ℕ

-- a left join: the rows that fit, or null when there is none
abbrev pub or_null {ℓ} : {A : Type ℓ} → List A → List (Option A)
or_null [] = none ∷ []
or_null (a ∷ rows) = map (λ x. some x) (a ∷ rows)

abbrev pub app_node : Option Node → Option AppNode
app_node none = none
app_node (some n) =
    if n.id == "" || n.slug == "" || n.name == ""
    then none
    else some (record { id = n.id; slug = n.slug; kind = kind_of n.metadata; name = n.name })

abbrev pub host_of : Option Binding → Option String
host_of none = none
host_of (some b) = some b.hostname

abbrev pub app_of : Tenant → Option Binding → Option Node → TenantApp
app_of t b n = record {
  account_id = t.account_id;
  name = t.name;
  status = t.status;
  owner_kind = t.owner_kind;
  hostname = host_of b;
  node = app_node n;
  created_at = t.created_at;
}

unfoldable pub apps_with : Tenant → List (Option Binding) → List (Option Node) → List TenantApp
apps_with t [] nodes = []
apps_with t (b ∷ bindings) nodes = map (app_of t b) nodes ++ apps_with t bindings nodes

abbrev pub joined : TenantsDb → Tenant → List TenantApp
joined db t =
    apps_with t
      (or_null (filter (λ (b : Binding). b.tenant_id == t.id && b.is_primary) db.bindings))
      (or_null (filter (node_of t.id) db.nodes))

abbrev pub is_active : TenantStatus → Bool
is_active active = true
is_active _ = false

abbrev pub org_asked : Option (List String) → Tenant → Bool
org_asked none t = true
org_asked (some orgs) t = elim t.org_id [ none ↦ false | some org ↦ member org orgs ]

unfoldable pub app_rows : Option (List String) → TenantsDb → List Tenant → List TenantApp
unfolding apps_with kind_of
app_rows orgs db [] = []
app_rows orgs db (t ∷ tenants) =
    let rest = app_rows orgs db tenants in
    if is_active t.status && org_asked orgs t then joined db t ++ rest else rest

-- the first row of each account
unfoldable pub first_rows : List String → List TenantApp → List TenantApp
first_rows seen [] = []
first_rows seen (app ∷ apps) =
    let rest = first_rows seen apps in
    let more = first_rows (app.account_id ∷ seen) apps in
    if member app.account_id seen then rest else app ∷ more

unfoldable pub list_tenant_apps : Option (List String) → TenantsDb → List TenantApp
unfolding app_rows first_rows
list_tenant_apps (some []) db = []
list_tenant_apps orgs db = first_rows [] (app_rows orgs db db.tenants)
