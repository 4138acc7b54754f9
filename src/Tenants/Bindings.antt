-- ===== src/Tenants/Bindings.antt =====
-- The host names of a tenant: createBinding, verifyCustomDomain, deleteBinding, setPrimaryBinding and
-- the reads of bindings in api/src/services/tenants.ts. The TXT records of a host are a parameter.
use citynode_app.Prelude.{
  ℕ, String, List, [], ◌∷◌, Bool, true, false, Option, none, some, ◌++◌, if◌then◌else◌, ◌==◌, ◌&&◌,
  ◌||◌, not, any, find, filter,
}
use citynode_app.Tenants.Types.{
  Tenant, Binding, TenantsDb, TenantsEnv, TenantsResult, ok, err, ◌>>=◌, ◌>>◌, require, found_or,
  tenant_not_found, binding_not_found, hostname_taken, txt_record_not_found, unique_violation,
  TenantStatus,
}
use citynode_app.Tenants.Hostnames.{has_dot, is_gateway_zone, expected_record}
use citynode_app.Tenants.Rows.{tenant_stored, insert_binding, update_rows, binding_clash}

abbrev pub auto_verified : List String → String → Bool
auto_verified domains hostname = not (has_dot hostname) || is_gateway_zone domains hostname

pub record CreateBindingInput : Type 0 where
  pub tenant_id : String
  pub hostname : String
  pub is_primary : Option Bool

abbrev pub new_binding : String → String → Bool → Bool → TenantsEnv → Binding
new_binding tenant hostname primary verified env = record {
  id = env.binding_id;
  tenant_id = tenant;
  hostname = hostname;
  is_primary = primary;
  is_verified = verified;
  verification_token = env.token;
  verified_at = if verified then some env.now else none;
  created_at = env.now;
  updated_at = env.now;
}

-- the insert of a host name, whose unique violations all mean that it is in use
abbrev pub host_in_use {ℓ} : {A : Type ℓ} → TenantsResult A → TenantsResult A
host_in_use (err unique_violation) = err hostname_taken
host_in_use answer = answer

abbrev pub or_false : Option Bool → Bool
or_false none = false
or_false (some b) = b

abbrev pub created_binding : List String → CreateBindingInput → TenantsEnv → Binding
created_binding domains input env =
    new_binding input.tenant_id input.hostname (or_false input.is_primary)
      (auto_verified domains input.hostname) env

unfoldable pub create_binding :
    List String → CreateBindingInput → TenantsEnv → TenantsDb → TenantsResult (Binding × TenantsDb)
unfolding has_dot is_gateway_zone insert_binding
create_binding domains input env db =
    require (tenant_stored input.tenant_id db.tenants) tenant_not_found
    >> host_in_use (insert_binding (created_binding domains input env) db)
    >>= λ after. ok (created_binding domains input env, after)

abbrev pub is_binding : String → String → Binding → Bool
is_binding tenant i b = b.id == i && b.tenant_id == tenant

-- what `resolveTxt(hostname).catch(() => [])` answers, each record with its chunks joined
abbrev pub domain_proved : (String → List String) → Binding → Bool
domain_proved txt_records b =
    not (has_dot b.hostname)
    || any (λ record_text. record_text == expected_record b.verification_token)
        (txt_records b.hostname)

-- an update of the row that the select found, and the row it returns
unfoldable pub set_binding :
    String
    → String
    → (Binding → Binding)
    → Binding
    → TenantsDb
    → TenantsResult (Binding × TenantsDb)
unfolding update_rows
set_binding tenant i set b db = do
  bindings ← update_rows binding_clash (is_binding tenant i) set db.bindings
  ok (set b, record db { bindings = bindings })

abbrev pub verified : ℕ → Binding → Binding
verified now b = record b { is_verified = true; verified_at = some now; updated_at = now }

-- a binding that is verified already stays
unfoldable pub verified_binding :
    (String → List String)
    → String
    → String
    → TenantsEnv
    → TenantsDb
    → Binding
    → TenantsResult (Binding × TenantsDb)
unfolding set_binding has_dot
verified_binding txt_records tenant i env db b =
    if b.is_verified
    then ok (b, db)
    else (require (domain_proved txt_records b) txt_record_not_found
        >> set_binding tenant i (verified env.now) b db)

unfoldable pub verify_domain :
    (String → List String)
    → String
    → String
    → TenantsEnv
    → TenantsDb
    → TenantsResult (Binding × TenantsDb)
unfolding verified_binding
verify_domain txt_records tenant i env db = do
  b ← found_or (find (is_binding tenant i) db.bindings) binding_not_found
  verified_binding txt_records tenant i env db b

unfoldable pub delete_binding : String → String → TenantsDb → TenantsResult TenantsDb
delete_binding tenant i db =
    require (any (is_binding tenant i) db.bindings) binding_not_found
    >> ok (record db { bindings = filter (λ b. not (is_binding tenant i b)) db.bindings })

abbrev pub secondary : ℕ → Binding → Binding
secondary now b = record b { is_primary = false; updated_at = now }

abbrev pub primary : ℕ → Binding → Binding
primary now b = record b { is_primary = true; updated_at = now }

abbrev pub other_binding : String → String → Binding → Bool
other_binding tenant i b = b.tenant_id == tenant && not (b.id == i)

abbrev pub has_id : String → Binding → Bool
has_id i b = b.id == i

unfoldable pub set_primary_binding :
    String → String → TenantsEnv → TenantsDb → TenantsResult (Binding × TenantsDb)
unfolding update_rows
set_primary_binding tenant i env db = do
  b ← found_or (find (is_binding tenant i) db.bindings) binding_not_found
  cleared ← update_rows binding_clash (other_binding tenant i) (secondary env.now) db.bindings
  bindings ← update_rows binding_clash (has_id i) (primary env.now) cleared
  ok (primary env.now b, record db { bindings = bindings })

unfoldable pub resolve_binding_by_hostname : String → TenantsDb → Option Binding
resolve_binding_by_hostname hostname db = find (λ (b : Binding). b.hostname == hostname) db.bindings

unfoldable pub list_bindings_for_tenant : String → TenantsDb → List Binding
list_bindings_for_tenant tenant db = filter (λ (b : Binding). b.tenant_id == tenant) db.bindings

pub record TenantBinding : Type 0 where
  pub hostname : String
  pub tenant_id : String
  pub account_id : String
  pub allow_ui_overrides : Bool
  pub allow_backend_overrides : Bool
  pub allow_ssr : Bool
  pub status : TenantStatus

abbrev pub bound_to : Binding → Tenant → TenantBinding
bound_to b t = record {
  hostname = b.hostname;
  tenant_id = b.tenant_id;
  account_id = t.account_id;
  allow_ui_overrides = t.allow_ui_overrides;
  allow_backend_overrides = t.allow_backend_overrides;
  allow_ssr = t.allow_ssr;
  status = t.status;
}

unfoldable pub with_tenant : List Tenant → Binding → List TenantBinding
with_tenant [] b = []
with_tenant (t ∷ tenants) b =
    let rest = with_tenant tenants b in if b.tenant_id == t.id then bound_to b t ∷ rest else rest

-- verified, or without a dot: the inner join of the bindings with their tenants
unfoldable pub routed : List Tenant → List Binding → List TenantBinding
unfolding with_tenant has_dot
routed tenants [] = []
routed tenants (b ∷ bindings) =
    let rest = routed tenants bindings in
    if b.is_verified || not (has_dot b.hostname) then with_tenant tenants b ++ rest else rest

unfoldable pub list_bindings : TenantsDb → List TenantBinding
unfolding routed
list_bindings db = routed db.tenants db.bindings
