-- ===== src/Tenants/Calls.antt =====
-- The calls of api/src/services/tenants.ts that write as one type, so that they can be made one after
-- the other.
use citynode_app.Prelude.{String, List, [], ◌∷◌}
use citynode_app.Json.{Json}
use citynode_app.Tenants.Types.{TenantsDb, TenantsEnv, TenantsResult, ok, err, ◌>>=◌}
use citynode_app.Tenants.Bindings.{
  CreateBindingInput, create_binding, verify_domain, delete_binding, set_primary_binding,
}
use citynode_app.Tenants.Communities.{ProposalInput, apply_proposal, release_proposal}
use citynode_app.Tenants.Service.{
  TenantInput, SpawnInput, TenantUpdate, create_tenant, spawn_tenant, update_tenant,
  soft_delete_tenant, suspend_tenant, reactivate_tenant, delete_tenant_by_id,
}

-- The calls that write. An application sees the tables at once or as they were before other calls.
pub data Call : Type 0 where
  create_binding_call : CreateBindingInput → Call
  verify_domain_call delete_binding_call set_primary_call : String → String → Call
  create_tenant_call : TenantInput → Call
  spawn_tenant_call : SpawnInput → Call
  apply_call : ProposalInput → TenantsDb → Call
  release_call : String → Call
  update_tenant_call : String → TenantUpdate → Call
  soft_delete_call suspend_call reactivate_call delete_tenant_call : String → Call

-- the tables after a call: as they were when it fails
abbrev pub tables_after : TenantsResult TenantsDb → TenantsDb → TenantsDb
tables_after (ok after) db = after
tables_after (err e) db = db

module _ (nested : Json → String) (domains : List String) (txt_records : String → List String) where
  unfoldable pub perform : Call → TenantsEnv → TenantsDb → TenantsResult TenantsDb
  perform (create_binding_call input) env db =
      create_binding domains input env db >>= λ (row, after). ok after
  perform (verify_domain_call t i) env db =
      verify_domain txt_records t i env db >>= λ (row, after). ok after
  perform (delete_binding_call t i) env db = delete_binding t i db
  perform (set_primary_call t i) env db =
      set_primary_binding t i env db >>= λ (row, after). ok after
  perform (create_tenant_call input) env db =
      create_tenant input env db >>= λ (row, after). ok after
  perform (spawn_tenant_call input) env db =
      spawn_tenant domains input env db >>= λ (row, more). ok more.1
  perform (apply_call input seen) env db =
      apply_proposal nested input env seen db >>= λ (node, after). ok after
  perform (release_call p) env db = release_proposal nested p db >>= λ (reply, after). ok after
  perform (update_tenant_call i input) env db =
      update_tenant i input env db >>= λ (row, after). ok after
  perform (soft_delete_call i) env db = soft_delete_tenant i env db >>= λ (row, after). ok after
  perform (suspend_call i) env db = suspend_tenant i env db >>= λ (row, after). ok after
  perform (reactivate_call i) env db = reactivate_tenant i env db >>= λ (row, after). ok after
  perform (delete_tenant_call i) env db = delete_tenant_by_id i db >>= λ (found, after). ok after

  unfoldable pub run_calls : List (Call × TenantsEnv) → TenantsDb → TenantsDb
  unfolding perform
  run_calls [] db = db
  run_calls ((call, env) ∷ calls) db = run_calls calls (tables_after (perform call env db) db)
