-- ===== src/Tenants/TenantsSound.antt =====
-- The calls on tenants of api/src/services/tenants.ts, from sound tables.
use citynode_app.Prelude.{
  ◌≡◌, refl, sym, subst, ap, ◌∙◌, String, Bool, true, false, List, ◌==◌, All, All-mono,
}
use citynode_app.Tenants.Types.{
  Tenant, Binding, TenantsDb, TenantsEnv, TenantsResult, ok, err, ◌>>=◌, tenant_not_found,
  binding_not_found, hostname_taken, account_taken, slug_taken, txt_record_not_found,
  unique_violation, resources_exist, reference_violation, parent_not_found, invalid_parent,
}
use citynode_app.Tenants.Rows.{
  update_rows, insert_binding, insert_tenant, tenant_clash, tenant_stored, delete_tenant,
}
use citynode_app.Tenants.Distinct.{any-set_where}
use citynode_app.Tenants.Gives.{
  Gives, Gives-bind, Gives-found, Gives-if, Gives-mono, Gives-guard, Gives-ok,
}
use citynode_app.Tenants.Sound.{
  IsSound, IsOwned, update_rows-IsDistinct, insert_binding-IsSound, insert_tenant-IsSound,
  delete_tenant-IsSound,
}
use citynode_app.Tenants.Service.{
  TenantInput, SpawnInput, TenantUpdate, create_tenant, created_tenant, account_in_use,
  spawn_tenant, spawned_tenant, spawned_binding, update_tenant, write_tenant, is_tenant,
  patch_tenant, soft_delete_tenant, suspend_tenant, reactivate_tenant, delete_tenant_by_id,
}
use citynode_app.Tenants.BindingsSound.{SoundRest}

account_in_use-Gives {ℓ κ} :
    {A : Type ℓ} (P : A → Type κ) (r : TenantsResult A) → Gives P r → Gives P (account_in_use r)
unfolding Gives
account_in_use-Gives P (ok a) h = h
account_in_use-Gives P (err unique_violation) h = tt
account_in_use-Gives P (err tenant_not_found) h = tt
account_in_use-Gives P (err binding_not_found) h = tt
account_in_use-Gives P (err parent_not_found) h = tt
account_in_use-Gives P (err account_taken) h = tt
account_in_use-Gives P (err slug_taken) h = tt
account_in_use-Gives P (err hostname_taken) h = tt
account_in_use-Gives P (err resources_exist) h = tt
account_in_use-Gives P (err invalid_parent) h = tt
account_in_use-Gives P (err txt_record_not_found) h = tt
account_in_use-Gives P (err reference_violation) h = tt

pub create_tenant-IsSound :
    (input : TenantInput) (env : TenantsEnv) (db : TenantsDb)
    → IsSound db
    → Gives SoundRest (create_tenant input env db)
unfolding create_tenant
create_tenant-IsSound input env db s =
    let inserted = insert_tenant (created_tenant input env) db in
    Gives-bind IsSound SoundRest (account_in_use inserted) _
      (account_in_use-Gives IsSound inserted
        (insert_tenant-IsSound (created_tenant input env) db s))
      (λ after h. Gives-ok SoundRest (created_tenant input env, after) h)

pub spawn_tenant-IsSound :
    (domains : List String) (input : SpawnInput) (env : TenantsEnv) (db : TenantsDb)
    → IsSound db
    → Gives
        (λ (answer : Tenant × (Binding × TenantsDb)). IsSound answer.1.1)
        (spawn_tenant domains input env db)
unfolding spawn_tenant
spawn_tenant-IsSound domains input env db s =
    let Q : Tenant × (Binding × TenantsDb) → Type 0 = λ answer. IsSound answer.1.1 in
    Gives-bind IsSound Q _ _
      (Gives-guard IsSound _ (insert_tenant (spawned_tenant input env) db)
        (insert_tenant-IsSound (spawned_tenant input env) db s))
      (λ with_tenant h.
        Gives-bind IsSound Q (insert_binding (spawned_binding domains input env) with_tenant) _
          (insert_binding-IsSound (spawned_binding domains input env) with_tenant h)
          (λ after k. Gives-ok Q _ k))

-- Rows that keep their identifier are stored as before.
pub update_tenants-IsSound :
    (chosen : Tenant → Bool) (set : Tenant → Tenant) (db : TenantsDb)
    → ((t : Tenant) → (set t).id ≡ t.id)
    → IsSound db
    → Gives
        (λ rows. IsSound (record db { tenants = rows }))
        (update_rows tenant_clash chosen set db.tenants)
update_tenants-IsSound chosen set db k s =
    Gives-mono _ (λ rows. IsSound (record db { tenants = rows })) _
      (λ rows (same, d). record {
        accounts = d;
        hosts = s.hosts;
        owned =
            subst (λ tenants. All (IsOwned tenants) db.bindings) (sym same)
              (All-mono
                (λ (b : Binding) h.
                  any-set_where (λ (row : Tenant). row.id == b.tenant_id) chosen set db.tenants
                    (λ row. ap (λ i. i == b.tenant_id) (k row))
                  ∙ h)
                db.bindings s.owned);
      })
      (update_rows-IsDistinct tenant_clash chosen set db.tenants)

pub write_tenant-IsSound :
    (i : String) (set : Tenant → Tenant) (db : TenantsDb)
    → ((t : Tenant) → (set t).id ≡ t.id)
    → IsSound db
    → Gives SoundRest (write_tenant i set db)
unfolding write_tenant
write_tenant-IsSound i set db k s =
    Gives-bind (λ rows. IsSound (record db { tenants = rows })) SoundRest _ _
      (update_tenants-IsSound (is_tenant i) set db k s) (λ rows h. Gives-ok SoundRest _ h)

pub update_tenant-IsSound :
    (i : String) (input : TenantUpdate) (env : TenantsEnv) (db : TenantsDb)
    → IsSound db
    → Gives SoundRest (update_tenant i input env db)
unfolding update_tenant
update_tenant-IsSound i input env db s =
    Gives-bind SoundRest SoundRest (write_tenant i (patch_tenant input env.now) db) _
      (write_tenant-IsSound i (patch_tenant input env.now) db (λ t. refl) s)
      (λ (row, after) h.
        Gives-found SoundRest row tenant_not_found _ (λ t found. Gives-ok SoundRest (t, after) h))

pub soft_delete_tenant-IsSound :
    (i : String) (env : TenantsEnv) (db : TenantsDb)
    → IsSound db
    → Gives SoundRest (soft_delete_tenant i env db)
unfolding soft_delete_tenant
soft_delete_tenant-IsSound i env db s = write_tenant-IsSound i _ db (λ t. refl) s

pub suspend_tenant-IsSound :
    (i : String) (env : TenantsEnv) (db : TenantsDb)
    → IsSound db
    → Gives SoundRest (suspend_tenant i env db)
unfolding suspend_tenant
suspend_tenant-IsSound i env db s = write_tenant-IsSound i _ db (λ t. refl) s

pub reactivate_tenant-IsSound :
    (i : String) (env : TenantsEnv) (db : TenantsDb)
    → IsSound db
    → Gives SoundRest (reactivate_tenant i env db)
unfolding reactivate_tenant
reactivate_tenant-IsSound i env db s = write_tenant-IsSound i _ db (λ t. refl) s

pub delete_tenant_by_id-IsSound :
    (i : String) (db : TenantsDb) → IsSound db → Gives SoundRest (delete_tenant_by_id i db)
unfolding delete_tenant_by_id
delete_tenant_by_id-IsSound i db s =
    Gives-if SoundRest (tenant_stored i db.tenants)
      (delete_tenant i db >>= λ after. ok (true, after)) (ok (false, db))
      (Gives-bind IsSound SoundRest (delete_tenant i db) _ (delete_tenant-IsSound i db s)
        (λ after h. Gives-ok SoundRest (true, after) h))
      (Gives-ok SoundRest (false, db) s)
