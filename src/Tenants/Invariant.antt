-- ===== src/Tenants/Invariant.antt =====
-- The calls of api/src/services/tenants.ts that write, one after the other, from sound tables.
use citynode_app.Prelude.{String, List, [], ◌∷◌}
use citynode_app.Json.{Json}
use citynode_app.Tenants.Types.{
  Tenant, Binding, TenantsDb, TenantsEnv, TenantsResult, ok, err, ◌>>=◌,
}
use citynode_app.Tenants.Gives.{Gives, Gives-bind, Gives-ok}
use citynode_app.Tenants.Sound.{IsSound}
use citynode_app.Tenants.Bindings.{create_binding, verify_domain, set_primary_binding}
use citynode_app.Tenants.Communities.{apply_proposal, release_proposal}
use citynode_app.Tenants.Service.{
  create_tenant, spawn_tenant, update_tenant, soft_delete_tenant, suspend_tenant, reactivate_tenant,
  delete_tenant_by_id,
}
use citynode_app.Tenants.BindingsSound.{
  SoundRest, create_binding-IsSound, verify_domain-IsSound, delete_binding-IsSound,
  set_primary_binding-IsSound,
}
use citynode_app.Tenants.TenantsSound.{
  create_tenant-IsSound, spawn_tenant-IsSound, update_tenant-IsSound, soft_delete_tenant-IsSound,
  suspend_tenant-IsSound, reactivate_tenant-IsSound, delete_tenant_by_id-IsSound,
}
use citynode_app.Tenants.CommunitiesSound.{apply_proposal-IsSound, release_proposal-IsSound}
use citynode_app.Tenants.Calls.{
  Call, create_binding_call, verify_domain_call, delete_binding_call, set_primary_call,
  create_tenant_call, spawn_tenant_call, apply_call, release_call, update_tenant_call,
  soft_delete_call, suspend_call, reactivate_call, delete_tenant_call, perform, run_calls,
  tables_after,
}

-- the tables that a call leaves, whatever else it answers
rest_of {ℓ} :
    {A : Type ℓ} (r : TenantsResult (A × TenantsDb))
    → Gives SoundRest r
    → Gives IsSound (r >>= λ (a, after). ok after)
unfolding Gives
rest_of (ok (a, db)) h = h
rest_of (err e) h = tt

-- A call that does not fail leaves sound tables.
perform-IsSound :
    (nested : Json → String) (domains : List String) (txt : String → List String) (call : Call)
    (env : TenantsEnv) (db : TenantsDb)
    → IsSound db
    → Gives IsSound (perform nested domains txt call env db)
unfolding perform
perform-IsSound nested domains txt (create_binding_call input) env db s =
    rest_of (create_binding domains input env db) (create_binding-IsSound domains input env db s)
perform-IsSound nested domains txt (verify_domain_call t i) env db s =
    rest_of (verify_domain txt t i env db) (verify_domain-IsSound txt t i env db s)
perform-IsSound nested domains txt (delete_binding_call t i) env db s =
    delete_binding-IsSound t i db s
perform-IsSound nested domains txt (set_primary_call t i) env db s =
    rest_of (set_primary_binding t i env db) (set_primary_binding-IsSound t i env db s)
perform-IsSound nested domains txt (create_tenant_call input) env db s =
    rest_of (create_tenant input env db) (create_tenant-IsSound input env db s)
perform-IsSound nested domains txt (spawn_tenant_call input) env db s =
    Gives-bind (λ (answer : Tenant × (Binding × TenantsDb)). IsSound answer.1.1) IsSound
      (spawn_tenant domains input env db) _ (spawn_tenant-IsSound domains input env db s)
      (λ answer h. Gives-ok IsSound answer.1.1 h)
perform-IsSound nested domains txt (apply_call input seen) env db s =
    rest_of (apply_proposal nested input env seen db)
      (apply_proposal-IsSound nested input env seen db s)
perform-IsSound nested domains txt (release_call p) env db s =
    rest_of (release_proposal nested p db) (release_proposal-IsSound nested p db s)
perform-IsSound nested domains txt (update_tenant_call i input) env db s =
    rest_of (update_tenant i input env db) (update_tenant-IsSound i input env db s)
perform-IsSound nested domains txt (soft_delete_call i) env db s =
    rest_of (soft_delete_tenant i env db) (soft_delete_tenant-IsSound i env db s)
perform-IsSound nested domains txt (suspend_call i) env db s =
    rest_of (suspend_tenant i env db) (suspend_tenant-IsSound i env db s)
perform-IsSound nested domains txt (reactivate_call i) env db s =
    rest_of (reactivate_tenant i env db) (reactivate_tenant-IsSound i env db s)
perform-IsSound nested domains txt (delete_tenant_call i) env db s =
    rest_of (delete_tenant_by_id i db) (delete_tenant_by_id-IsSound i db s)

tables_after-IsSound :
    (r : TenantsResult TenantsDb) (db : TenantsDb)
    → Gives IsSound r
    → IsSound db
    → IsSound (tables_after r db)
unfolding Gives
tables_after-IsSound (ok after) db h s = h
tables_after-IsSound (err e) db h s = s

-- From sound tables, whatever calls that write are made one after the other, failing or not, and
-- whatever earlier tables an application read: no two tenants have one identifier or one account, no
-- two bindings one identifier or one host name, no tenant has two primary bindings, and every binding
-- has its tenant.
pub run_calls-IsSound :
    (nested : Json → String) (domains : List String) (txt : String → List String)
    (calls : List (Call × TenantsEnv)) (db : TenantsDb)
    → IsSound db
    → IsSound (run_calls nested domains txt calls db)
unfolding run_calls
run_calls-IsSound nested domains txt [] db s = s
run_calls-IsSound nested domains txt ((call, env) ∷ calls) db s =
    run_calls-IsSound nested domains txt calls _ (
      tables_after-IsSound (perform nested domains txt call env db) db
        (perform-IsSound nested domains txt call env db s) s)
