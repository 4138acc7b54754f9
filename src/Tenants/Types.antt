-- ===== src/Tenants/Types.antt =====
-- The tables tenants and domain_bindings of api/src/db/schema.ts beside nodes and validators, and the
-- results of api/src/services/tenants.ts.
use citynode_app.Prelude.{ℕ, String, Bool, Option, none, some, List, if◌then◌else◌}
use citynode_app.Geography.Types.{Node, Validator}

pub data TenantStatus : Type 0 where
  active pending suspended pending_deletion : TenantStatus

pub data OwnerKind : Type 0 where
  platform dao user : OwnerKind

pub record Tenant : Type 0 where
  pub id : String
  pub account_id : String
  pub org_id : Option String
  pub owner_user_id : Option String
  pub name : String
  pub status : TenantStatus
  pub owner_kind : OwnerKind
  pub allow_ui_overrides : Bool
  pub allow_backend_overrides : Bool
  pub allow_ssr : Bool
  pub created_at : ℕ
  pub updated_at : ℕ
  pub deleted_at : Option ℕ

pub record Binding : Type 0 where
  pub id : String
  pub tenant_id : String
  pub hostname : String
  pub is_primary : Bool
  pub is_verified : Bool
  pub verification_token : String
  pub verified_at : Option ℕ
  pub created_at : ℕ
  pub updated_at : ℕ

pub record TenantsDb : Type 0 where
  pub tenants : List Tenant
  pub bindings : List Binding
  pub nodes : List Node
  pub validators : List Validator

-- What a call takes from the clock, from `defaultRandom` and from `randomBytes`.
pub record TenantsEnv : Type 0 where
  pub now : ℕ
  pub tenant_id : String
  pub binding_id : String
  pub node_id : String
  pub validator_id : String
  pub token : String

-- The ORPCErrors of the service. `unique_violation` and `reference_violation` are what Postgres
-- raises; a call that does not catch them answers INTERNAL_SERVER_ERROR.
pub data TenantsError : Type 0 where
  tenant_not_found binding_not_found parent_not_found : TenantsError
  account_taken slug_taken hostname_taken resources_exist : TenantsError
  invalid_parent txt_record_not_found : TenantsError
  unique_violation reference_violation : TenantsError

pub data TenantsResult {ℓ} (A : Type ℓ) : Type ℓ where
  ok : A → TenantsResult A
  err : TenantsError → TenantsResult A

infixl 5 ◌>>=◌ ◌>>◌
abbrev pub ◌>>=◌ {ℓ κ} :
    {A : Type ℓ} {B : Type κ} → TenantsResult A → (A → TenantsResult B) → TenantsResult B
ok a >>= f = f a
err e >>= f = err e

abbrev pub ◌>>◌ {ℓ} : {B : Type ℓ} → TenantsResult (Unit {0}) → TenantsResult B → TenantsResult B
m >> k = m >>= λ _. k

abbrev pub require : Bool → TenantsError → TenantsResult (Unit {0})
require b e = if b then ok tt else err e

abbrev pub found_or {ℓ} : {A : Type ℓ} → Option A → TenantsError → TenantsResult A
found_or none e = err e
found_or (some a) e = ok a
