-- ===== src/Tenants/Tests.antt =====
-- Examples of the calls of api/src/services/tenants.ts on concrete tables.
use citynode_app.Prelude.{◌≡◌, refl, String, Bool, true, false, none, some, List, [], ◌∷◌, All}
use citynode_app.Json.{Json, str}
use citynode_app.Geography.Types.{Node}
use citynode_app.Geography.Nodes.{slugs_unique}
use citynode_app.Tenants.Types.{
  Tenant, Binding, TenantsDb, TenantsEnv, ok, err, active, OwnerKind, hostname_taken,
}
use citynode_app.Tenants.Rows.{distinct}
use citynode_app.Tenants.Bindings.{
  resolve_binding_by_hostname, set_primary_binding, create_binding, primary,
}
use citynode_app.Tenants.Communities.{
  ProposalInput, city, apply_proposal, release_proposal, proposal_node, Released,
}
use citynode_app.Tenants.Created.{grown}
use citynode_app.Tenants.Sound.{IsSound}
use citynode_app.Tenants.Resumed.{apply_twice}
use citynode_app.Tenants.Restored.{IsFresh, release-apply}
use citynode_app.Tenants.Hosts.{delete_host, perform_host, host_after, perform_host-refines}
use citynode_app.Tenants.Primary.{OnlyPrimary, of_others, set_primary_binding_lem}

abbrev no_text : Json → String
no_text j = ""

abbrev no_records : String → List String
no_records host = []

abbrev some_tenant : String → String → Tenant
some_tenant i account = record {
  id = i;
  account_id = account;
  org_id = some "org";
  owner_user_id = none;
  name = "Porto";
  status = active;
  owner_kind = OwnerKind.dao;
  allow_ui_overrides = true;
  allow_backend_overrides = false;
  allow_ssr = false;
  created_at = 1;
  updated_at = 1;
  deleted_at = none;
}

abbrev some_binding : String → String → String → Bool → Binding
some_binding i tenant host is_primary = record {
  id = i;
  tenant_id = tenant;
  hostname = host;
  is_primary = is_primary;
  is_verified = true;
  verification_token = "token";
  verified_at = some 1;
  created_at = 1;
  updated_at = 1;
}

abbrev porto : Node
porto = record {
  id = "n1";
  slug = "porto";
  name = "Porto";
  parent_id = none;
  tenant_id = some "t1";
  metadata = ("kind", str "city") ∷ [];
  created_at = 1;
  updated_at = 1;
}

abbrev first_tables : TenantsDb
first_tables = record {
  tenants = some_tenant "t1" "porto.near" ∷ some_tenant "t2" "faro.near" ∷ [];
  bindings =
      some_binding "b1" "t1" "porto" true
      ∷ some_binding "b2" "t1" "porto.pt" false
      ∷ some_binding "b3" "t2" "faro" true
      ∷ [];
  nodes = porto ∷ [];
  validators = [];
}

abbrev env_of : String → String → TenantsEnv
env_of tenant node = record {
  now = 5;
  tenant_id = tenant;
  binding_id = "b9";
  node_id = node;
  validator_id = "v9";
  token = "secret";
}

abbrev lisbon : ProposalInput
lisbon = record {
  kind = city;
  name = "Lisbon";
  slug = "lisbon";
  parent_id = none;
  org_id = "org9";
  account_id = "lisbon.near";
  hostname = "lisbon";
  pool_account_id = some "pool.near";
  proposal_id = some "p9";
}

abbrev second_tables : TenantsDb
second_tables = grown lisbon (env_of "t9" "n9") first_tables

first_tables-IsSound : IsSound first_tables
unfolding distinct
first_tables-IsSound = record { accounts = refl; hosts = refl; owned = (refl, (refl, (refl, tt))) }

applied :
    apply_proposal no_text lisbon (env_of "t9" "n9") first_tables first_tables
    ≡ ok ("n9", second_tables)
unfolding apply_proposal
applied = refl

unlinked : proposal_node no_text lisbon first_tables ≡ none
unfolding proposal_node
unlinked = refl

apply_twice_example :
    (apply_proposal no_text lisbon (env_of "t5" "n5") second_tables second_tables
      ≡ ok ("n9", second_tables))
    × (apply_proposal no_text lisbon (env_of "t5" "n5") first_tables second_tables
        ≡ ok ("n9", second_tables))
apply_twice_example =
    apply_twice no_text lisbon (env_of "t9" "n9") (env_of "t5" "n5") first_tables second_tables "p9"
      "n9" refl applied

first_tables-IsFresh : IsFresh lisbon (env_of "t9" "n9") first_tables
first_tables-IsFresh = record {
  no_tenant = refl;
  no_binding = refl;
  no_community = refl;
  no_child = refl;
  no_validator = refl;
  other_parent = refl;
}

slugs_kept : slugs_unique first_tables.nodes ≡ true
unfolding slugs_unique
slugs_kept = refl

release-apply_example :
    release_proposal no_text "p9" second_tables ≡ ok (Released.released, first_tables)
release-apply_example =
    release-apply no_text lisbon (env_of "t9" "n9") first_tables second_tables "p9" "n9" refl
      unlinked first_tables-IsFresh slugs_kept applied

set_primary_binding_example :
    (after : List Binding) × (set_primary_binding "t1" "b2" (env_of "t9" "n9") first_tables
      ≡ ok (
        primary 5 (some_binding "b2" "t1" "porto.pt" false),
        record first_tables { bindings = after },
      ))
    × All (OnlyPrimary "t1" "b2") after
    × (of_others "t1" after ≡ of_others "t1" first_tables.bindings)
set_primary_binding_example =
    set_primary_binding_lem "t1" "b2" (env_of "t9" "n9") first_tables
      (some_binding "b2" "t1" "porto.pt" false) first_tables-IsSound refl

-- A second primary binding of a tenant is refused as a host name in use, though no binding has it.
second_primary :
    create_binding []
      (record { tenant_id = "t1"; hostname = "lisbon"; is_primary = some true })
      (env_of "t9" "n9")
      first_tables
    ≡ err hostname_taken
unfolding create_binding
second_primary = refl

abbrev without_porto : TenantsDb
without_porto = record first_tables {
  bindings = some_binding "b2" "t1" "porto.pt" false ∷ some_binding "b3" "t2" "faro" true ∷ [];
}

deleted_porto :
    perform_host [] no_records (env_of "t9" "n9") (delete_host "t1" "b1") first_tables
    ≡ ok without_porto
unfolding perform_host
deleted_porto = refl

perform_host-refines_example :
    resolve_binding_by_hostname "porto" without_porto
    ≡ host_after [] no_records
        (env_of "t9" "n9")
        (delete_host "t1" "b1")
        "porto"
        (resolve_binding_by_hostname "porto" first_tables)
perform_host-refines_example =
    perform_host-refines [] no_records (env_of "t9" "n9") (delete_host "t1" "b1") first_tables
      without_porto "porto" first_tables-IsSound deleted_porto
