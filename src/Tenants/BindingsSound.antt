-- ===== src/Tenants/BindingsSound.antt =====
-- The calls on bindings of api/src/services/tenants.ts, from sound tables.
use citynode_app.Prelude.{
  ◌≡◌, refl, sym, subst, ap, ◌∙◌, inl, inr, String, Bool, List, [], ◌∷◌, Bool-cases, any, find,
  filter, not, All,
}
use citynode_app.Tenants.Types.{
  Tenant, Binding, TenantsDb, TenantsEnv, TenantsResult, ok, err, ◌>>◌, require, tenant_not_found,
  binding_not_found, hostname_taken, account_taken, slug_taken, txt_record_not_found,
  unique_violation, resources_exist, reference_violation, parent_not_found, invalid_parent,
}
use citynode_app.Tenants.Rows.{set_where, update_rows, insert_binding, binding_clash, tenant_stored}
use citynode_app.Tenants.Distinct.{distinct-filter}
use citynode_app.Tenants.Gives.{
  Gives, Gives-bind, Gives-require, Gives-found, Gives-if, Gives-mono, Gives-ok,
}
use citynode_app.Tenants.Sound.{IsSound, IsOwned, update_rows-IsDistinct, insert_binding-IsSound}
use citynode_app.Tenants.Bindings.{
  CreateBindingInput, create_binding, verify_domain, verified_binding, verified, set_binding,
  delete_binding, set_primary_binding, host_in_use, is_binding, other_binding, has_id, secondary,
  primary, created_binding,
}

abbrev pub SoundRest {ℓ} : {A : Type ℓ} → A × TenantsDb → Type 0
SoundRest (a, db) = IsSound db

pub host_in_use-Gives {ℓ κ} :
    {A : Type ℓ} (P : A → Type κ) (r : TenantsResult A) → Gives P r → Gives P (host_in_use r)
unfolding Gives
host_in_use-Gives P (ok a) h = h
host_in_use-Gives P (err unique_violation) h = tt
host_in_use-Gives P (err tenant_not_found) h = tt
host_in_use-Gives P (err binding_not_found) h = tt
host_in_use-Gives P (err parent_not_found) h = tt
host_in_use-Gives P (err account_taken) h = tt
host_in_use-Gives P (err slug_taken) h = tt
host_in_use-Gives P (err hostname_taken) h = tt
host_in_use-Gives P (err resources_exist) h = tt
host_in_use-Gives P (err invalid_parent) h = tt
host_in_use-Gives P (err txt_record_not_found) h = tt
host_in_use-Gives P (err reference_violation) h = tt

pub create_binding-IsSound :
    (domains : List String) (input : CreateBindingInput) (env : TenantsEnv) (db : TenantsDb)
    → IsSound db
    → Gives SoundRest (create_binding domains input env db)
unfolding create_binding
create_binding-IsSound domains input env db s =
    let inserted = host_in_use (insert_binding (created_binding domains input env) db) in
    Gives-bind IsSound SoundRest
      (require (tenant_stored input.tenant_id db.tenants) tenant_not_found >> inserted) _
      (Gives-require IsSound (tenant_stored input.tenant_id db.tenants) tenant_not_found inserted
        (λ stored.
          host_in_use-Gives IsSound (insert_binding (created_binding domains input env) db)
            (insert_binding-IsSound (created_binding domains input env) db s)))
      (λ after h. Gives-ok SoundRest (created_binding domains input env, after) h)

-- Rows that keep their tenants keep them stored.
IsOwned-set_where :
    (tenants : List Tenant) (chosen : Binding → Bool) (set : Binding → Binding)
    (bindings : List Binding)
    → ((b : Binding) → (set b).tenant_id ≡ b.tenant_id)
    → All (IsOwned tenants) bindings
    → All (IsOwned tenants) (set_where chosen set bindings)
unfolding set_where
IsOwned-set_where tenants chosen set [] k h = tt
IsOwned-set_where tenants chosen set (b ∷ bindings) k h =
    let rest = IsOwned-set_where tenants chosen set bindings k h.1 in
    elim (Bool-cases (chosen b)) [
      | inl hit ↦ rw hit (ap (λ t. tenant_stored t tenants) (k b) ∙ h.0, rest)
      | inr miss ↦ rw miss (h.0, rest)
    ]

pub update_bindings-IsSound :
    (chosen : Binding → Bool) (set : Binding → Binding) (db : TenantsDb)
    → ((b : Binding) → (set b).tenant_id ≡ b.tenant_id)
    → IsSound db
    → Gives
        (λ rows. IsSound (record db { bindings = rows }))
        (update_rows binding_clash chosen set db.bindings)
update_bindings-IsSound chosen set db k s =
    Gives-mono _ (λ rows. IsSound (record db { bindings = rows })) _
      (λ rows (same, d). record {
        accounts = s.accounts;
        hosts = d;
        owned =
            subst (λ bindings. All (IsOwned db.tenants) bindings) (sym same)
              (IsOwned-set_where db.tenants chosen set db.bindings k s.owned);
      })
      (update_rows-IsDistinct binding_clash chosen set db.bindings)

pub set_binding-IsSound :
    (t i : String) (set : Binding → Binding) (b : Binding) (db : TenantsDb)
    → ((b : Binding) → (set b).tenant_id ≡ b.tenant_id)
    → IsSound db
    → Gives SoundRest (set_binding t i set b db)
unfolding set_binding
set_binding-IsSound t i set b db k s =
    Gives-bind (λ rows. IsSound (record db { bindings = rows })) SoundRest _ _
      (update_bindings-IsSound (is_binding t i) set db k s) (λ rows h. Gives-ok SoundRest _ h)

pub verify_domain-IsSound :
    (txt : String → List String) (t i : String) (env : TenantsEnv) (db : TenantsDb)
    → IsSound db
    → Gives SoundRest (verify_domain txt t i env db)
unfolding verify_domain verified_binding
verify_domain-IsSound txt t i env db s =
    Gives-found SoundRest (find (is_binding t i) db.bindings) binding_not_found _ (λ b found.
      Gives-if SoundRest b.is_verified _ _ (Gives-ok SoundRest _ s) (
        Gives-require SoundRest _ txt_record_not_found _
          (λ proved. set_binding-IsSound t i (verified env.now) b db (λ row. refl) s)))

filtered-IsOwned :
    (tenants : List Tenant) (q : Binding → Bool) (bindings : List Binding)
    → All (IsOwned tenants) bindings
    → All (IsOwned tenants) (filter q bindings)
filtered-IsOwned tenants q [] h = tt
filtered-IsOwned tenants q (b ∷ bindings) h =
    let rest = filtered-IsOwned tenants q bindings h.1 in
    elim (Bool-cases (q b)) [ inl hit ↦ rw hit (h.0, rest) | inr miss ↦ rw miss rest ]

pub delete_binding-IsSound :
    (t i : String) (db : TenantsDb) → IsSound db → Gives IsSound (delete_binding t i db)
unfolding delete_binding
delete_binding-IsSound t i db s =
    Gives-require IsSound (any (is_binding t i) db.bindings) binding_not_found
      (ok (record db { bindings = filter (λ b. not (is_binding t i b)) db.bindings }))
      (λ found. Gives-ok IsSound _ (record {
        accounts = s.accounts;
        hosts = distinct-filter binding_clash _ db.bindings s.hosts;
        owned = filtered-IsOwned db.tenants _ db.bindings s.owned;
      }))

pub set_primary_binding-IsSound :
    (t i : String) (env : TenantsEnv) (db : TenantsDb)
    → IsSound db
    → Gives SoundRest (set_primary_binding t i env db)
unfolding set_primary_binding
set_primary_binding-IsSound t i env db s =
    Gives-found SoundRest (find (is_binding t i) db.bindings) binding_not_found _ (λ b found.
      Gives-bind (λ rows. IsSound (record db { bindings = rows })) SoundRest _ _
        (update_bindings-IsSound (other_binding t i) (secondary env.now) db (λ row. refl) s)
        (λ cleared h.
          Gives-bind (λ rows. IsSound (record db { bindings = rows })) SoundRest _ _
            (update_bindings-IsSound (has_id i) (primary env.now) (record db { bindings = cleared })
              (λ row. refl) h)
            (λ rows k. Gives-ok SoundRest _ k)))
