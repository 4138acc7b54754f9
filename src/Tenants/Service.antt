-- ===== src/Tenants/Service.antt =====
-- The calls of api/src/services/tenants.ts on tenants: creation, updates, states and reads.
use citynode_app.Prelude.{
  ℕ, String, Bool, true, false, Option, none, some, List, [], ◌∷◌, if◌then◌else◌, ◌==◌, any, find,
  filter, opt_eq, not,
}
use citynode_app.Geography.Tree.{member}
use citynode_app.Geography.Validators.{default_to}
use citynode_app.Tenants.Types.{
  Tenant, TenantStatus, active, suspended, pending_deletion, OwnerKind, Binding, TenantsDb,
  TenantsEnv, TenantsResult, ok, err, ◌>>=◌, ◌>>◌, require, found_or, tenant_not_found,
  account_taken, hostname_taken, unique_violation,
}
use citynode_app.Tenants.Rows.{
  insert_tenant, insert_binding, update_rows, tenant_clash, delete_tenant, tenant_stored,
}
use citynode_app.Tenants.Hostnames.{is_gateway_zone}
use citynode_app.Tenants.Bindings.{new_binding}

pub record TenantInput : Type 0 where
  pub name : String
  pub account_id : String
  pub org_id : Option String
  pub owner_user_id : Option String
  pub status : Option TenantStatus
  pub owner_kind : Option OwnerKind
  pub allow_ui_overrides : Option Bool
  pub allow_backend_overrides : Option Bool
  pub allow_ssr : Option Bool

-- the columns that the insert leaves out have the table's defaults; `ownerUserId` is left out
unfoldable pub created_tenant : TenantInput → TenantsEnv → Tenant
created_tenant input env = record {
  id = env.tenant_id;
  account_id = input.account_id;
  org_id = input.org_id;
  owner_user_id = none;
  name = input.name;
  status = default_to active input.status;
  owner_kind = default_to OwnerKind.platform input.owner_kind;
  allow_ui_overrides = default_to true input.allow_ui_overrides;
  allow_backend_overrides = default_to false input.allow_backend_overrides;
  allow_ssr = default_to false input.allow_ssr;
  created_at = env.now;
  updated_at = env.now;
  deleted_at = none;
}

-- on a conflict of the account nothing is inserted; every unique violation is the same answer
abbrev pub account_in_use {ℓ} : {A : Type ℓ} → TenantsResult A → TenantsResult A
account_in_use (err unique_violation) = err account_taken
account_in_use answer = answer

unfoldable pub create_tenant :
    TenantInput → TenantsEnv → TenantsDb → TenantsResult (Tenant × TenantsDb)
unfolding created_tenant insert_tenant
create_tenant input env db =
    account_in_use (insert_tenant (created_tenant input env) db) >>= λ after.
    ok (created_tenant input env, after)

pub record SpawnInput : Type 0 where
  pub name : String
  pub hostname : String
  pub owner_account_id : String
  pub owner_user_id : String

abbrev pub spawned_tenant : SpawnInput → TenantsEnv → Tenant
spawned_tenant input env = record {
  id = env.tenant_id;
  account_id = input.owner_account_id;
  org_id = none;
  owner_user_id = some input.owner_user_id;
  name = input.name;
  status = active;
  owner_kind = OwnerKind.user;
  allow_ui_overrides = true;
  allow_backend_overrides = false;
  allow_ssr = false;
  created_at = env.now;
  updated_at = env.now;
  deleted_at = none;
}

abbrev pub spawned_binding : List String → SpawnInput → TenantsEnv → Binding
spawned_binding domains input env =
    new_binding env.tenant_id input.hostname true (is_gateway_zone domains input.hostname) env

unfoldable pub spawn_tenant :
    List String
    → SpawnInput
    → TenantsEnv
    → TenantsDb
    → TenantsResult (Tenant × (Binding × TenantsDb))
unfolding insert_tenant insert_binding is_gateway_zone
spawn_tenant domains input env db =
    require (not (any (λ (t : Tenant). t.account_id == input.owner_account_id) db.tenants))
      account_taken
    >> require (not (any (λ (b : Binding). b.hostname == input.hostname) db.bindings))
        hostname_taken
    >> insert_tenant (spawned_tenant input env) db
    >>= λ with_tenant. insert_binding (spawned_binding domains input env) with_tenant >>= λ after.
        ok (spawned_tenant input env, (spawned_binding domains input env, after))

-- a field that is left out is `none`
pub record TenantUpdate : Type 0 where
  pub name : Option String
  pub account_id : Option String
  pub status : Option TenantStatus
  pub allow_ui_overrides : Option Bool
  pub allow_backend_overrides : Option Bool
  pub allow_ssr : Option Bool

abbrev pub patch_tenant : TenantUpdate → ℕ → Tenant → Tenant
patch_tenant input now t = record t {
  name = default_to t.name input.name;
  account_id = default_to t.account_id input.account_id;
  status = default_to t.status input.status;
  allow_ui_overrides = default_to t.allow_ui_overrides input.allow_ui_overrides;
  allow_backend_overrides = default_to t.allow_backend_overrides input.allow_backend_overrides;
  allow_ssr = default_to t.allow_ssr input.allow_ssr;
  updated_at = now;
}

abbrev pub is_tenant : String → Tenant → Bool
is_tenant i t = t.id == i

abbrev pub row_after : (Tenant → Tenant) → Option Tenant → Option Tenant
row_after set none = none
row_after set (some t) = some (set t)

-- update … where id = …, and the row that it returns, if any
unfoldable pub write_tenant :
    String → (Tenant → Tenant) → TenantsDb → TenantsResult (Option Tenant × TenantsDb)
unfolding update_rows
write_tenant i set db = do
  tenants ← update_rows tenant_clash (is_tenant i) set db.tenants
  ok (row_after set (find (is_tenant i) db.tenants), record db { tenants = tenants })

unfoldable pub update_tenant :
    String → TenantUpdate → TenantsEnv → TenantsDb → TenantsResult (Tenant × TenantsDb)
unfolding write_tenant
update_tenant i input env db = do
  (row, after) ← write_tenant i (patch_tenant input env.now) db
  t ← found_or row tenant_not_found
  ok (t, after)

abbrev pub in_state : TenantStatus → ℕ → Tenant → Tenant
in_state status now t = record t { status = status; updated_at = now }

unfoldable pub soft_delete_tenant :
    String → TenantsEnv → TenantsDb → TenantsResult (Option Tenant × TenantsDb)
unfolding write_tenant
soft_delete_tenant i env db =
    write_tenant i (λ t. record (in_state pending_deletion env.now t) { deleted_at = some env.now })
      db

unfoldable pub suspend_tenant :
    String → TenantsEnv → TenantsDb → TenantsResult (Option Tenant × TenantsDb)
unfolding write_tenant
suspend_tenant i env db = write_tenant i (in_state suspended env.now) db

unfoldable pub reactivate_tenant :
    String → TenantsEnv → TenantsDb → TenantsResult (Option Tenant × TenantsDb)
unfolding write_tenant
reactivate_tenant i env db = write_tenant i (in_state active env.now) db

-- true iff a row was deleted
unfoldable pub delete_tenant_by_id : String → TenantsDb → TenantsResult (Bool × TenantsDb)
unfolding delete_tenant
delete_tenant_by_id i db =
    if tenant_stored i db.tenants
    then (delete_tenant i db >>= λ after. ok (true, after))
    else ok (false, db)

unfoldable pub resolve_tenant_by_account_id : String → TenantsDb → Option Tenant
resolve_tenant_by_account_id account db = find (λ (t : Tenant). t.account_id == account) db.tenants

unfoldable pub resolve_tenant_by_id : String → TenantsDb → Option Tenant
resolve_tenant_by_id i db = find (is_tenant i) db.tenants

unfoldable pub resolve_tenant_by_org_id : String → TenantsDb → Option Tenant
resolve_tenant_by_org_id org db = find (λ (t : Tenant). opt_eq t.org_id (some org)) db.tenants

unfoldable pub list_all_tenants : TenantsDb → List Tenant
list_all_tenants db = db.tenants

unfoldable pub list_tenants_by_owner_user_id : String → TenantsDb → List Tenant
list_tenants_by_owner_user_id owner db =
    filter (λ (t : Tenant). opt_eq t.owner_user_id (some owner)) db.tenants

abbrev pub org_among : List String → Tenant → Bool
org_among orgs t = elim t.org_id [ none ↦ false | some org ↦ member org orgs ]

-- no organization: none is asked for
unfoldable pub list_tenants_by_org_ids : List String → TenantsDb → List Tenant
list_tenants_by_org_ids [] db = []
list_tenants_by_org_ids (org ∷ orgs) db = filter (org_among (org ∷ orgs)) db.tenants
