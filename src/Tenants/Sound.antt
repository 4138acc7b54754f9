-- ===== src/Tenants/Sound.antt =====
-- The unique keys of tenants and bindings and the foreign key of a binding, under the statements of
-- api/src/services/tenants.ts.
use citynode_app.Prelude.{
  ◌≡◌, refl, sym, subst, inl, inr, String, Bool, true, false, List, [], ◌∷◌, ◌++◌, arith, ◌==◌,
  eq_iff, Bool-cases, any, filter, not, All, All-append, All-mono,
}
use citynode_app.Geography.Types.{Node, Validator}
use citynode_app.Geography.Nodes.{slugs_unique}
use citynode_app.Tenants.Types.{
  Tenant, Binding, TenantsDb, ok, unique_violation, reference_violation,
}
use citynode_app.Tenants.Rows.{
  distinct, set_where, insert_row, update_rows, insert_binding, insert_tenant,
  insert_community_node, insert_default_validator, delete_tenant, tenant_clash, binding_clash,
  tenant_stored, node_clash, validator_clash, kept_nodes, without_tenant,
}
use citynode_app.Tenants.Distinct.{any-append, distinct-append, distinct-filter}
use citynode_app.Tenants.Gives.{Gives, Gives-bind, Gives-require, Gives-any, Gives-ok}

-- the tenant of a binding is stored
abbrev pub IsOwned : List Tenant → Binding → Type 0
IsOwned tenants b = tenant_stored b.tenant_id tenants ≡ true

-- No two tenants have one identifier or one account, no two bindings one identifier or one host name,
-- no tenant has two primary bindings, and every binding has its tenant.
pub record IsSound (db : TenantsDb) : Type 0 where
  pub accounts : distinct tenant_clash db.tenants ≡ true
  pub hosts : distinct binding_clash db.bindings ≡ true
  pub owned : All (IsOwned db.tenants) db.bindings

tenant_clash_comm : (a b : Tenant) → tenant_clash a b ≡ tenant_clash b a
tenant_clash_comm a b = ground (
  arith,
  eq_iff a.id b.id,
  eq_iff b.id a.id,
  eq_iff a.account_id b.account_id,
  eq_iff b.account_id a.account_id,
)

binding_clash_comm : (a b : Binding) → binding_clash a b ≡ binding_clash b a
binding_clash_comm a b = ground (
  arith,
  eq_iff a.id b.id,
  eq_iff b.id a.id,
  eq_iff a.hostname b.hostname,
  eq_iff b.hostname a.hostname,
  eq_iff a.tenant_id b.tenant_id,
  eq_iff b.tenant_id a.tenant_id,
)

insert_row-IsDistinct {ℓ} :
    {Row : Type ℓ} (clash : Row → Row → Bool) (row : Row) (rows : List Row)
    → ((a b : Row) → clash a b ≡ clash b a)
    → distinct clash rows ≡ true
    → Gives
        (λ after. (after ≡ rows ++ row ∷ []) × (distinct clash after ≡ true))
        (insert_row clash row rows)
unfolding Gives insert_row
insert_row-IsDistinct clash row rows s d = elim (Bool-cases (any (clash row) rows)) [
  | inl hit ↦ rw hit tt
  | inr free ↦ rw free (refl, distinct-append clash rows row s d free)
]

pub update_rows-IsDistinct {ℓ} :
    {Row : Type ℓ} (clash : Row → Row → Bool) (chosen : Row → Bool) (set : Row → Row)
    (rows : List Row)
    → Gives
        (λ after. (after ≡ set_where chosen set rows) × (distinct clash after ≡ true))
        (update_rows clash chosen set rows)
unfolding Gives update_rows
update_rows-IsDistinct clash chosen set rows =
    elim (Bool-cases (distinct clash (set_where chosen set rows))) [
      | inl d ↦ rw d (refl, d)
      | inr clashes ↦ rw clashes tt
    ]

pub insert_binding-IsSound :
    (b : Binding) (db : TenantsDb) → IsSound db → Gives IsSound (insert_binding b db)
unfolding insert_binding
insert_binding-IsSound b db s =
    Gives-bind _ IsSound (insert_row binding_clash b db.bindings) _
      (insert_row-IsDistinct binding_clash b db.bindings binding_clash_comm s.hosts)
      (λ after (same, d).
        Gives-require IsSound (tenant_stored b.tenant_id db.tenants) reference_violation
          (ok (record db { bindings = after }))
          (λ stored. Gives-ok IsSound _ (record {
            accounts = s.accounts;
            hosts = d;
            owned =
                subst (λ rows. All (IsOwned db.tenants) rows) (sym same)
                  (All-append (IsOwned db.tenants) db.bindings (b ∷ []) s.owned (stored, tt));
          })))

pub insert_tenant-IsSound :
    (t : Tenant) (db : TenantsDb) → IsSound db → Gives IsSound (insert_tenant t db)
unfolding insert_tenant
insert_tenant-IsSound t db s =
    Gives-bind _ IsSound (insert_row tenant_clash t db.tenants) _
      (insert_row-IsDistinct tenant_clash t db.tenants tenant_clash_comm s.accounts)
      (λ after (same, d). Gives-ok IsSound _ (record {
        accounts = d;
        hosts = s.hosts;
        owned =
            subst (λ tenants. All (IsOwned tenants) db.bindings) (sym same)
              (All-mono
                (λ (b : Binding) h.
                  ground (
                    arith,
                    any-append (λ (row : Tenant). row.id == b.tenant_id) db.tenants (t ∷ []),
                  ))
                db.bindings s.owned);
      }))

pub insert_community_node-IsSound :
    (n : Node) (db : TenantsDb) → IsSound db → Gives IsSound (insert_community_node n db)
unfolding insert_community_node
insert_community_node-IsSound n db s =
    Gives-bind (λ nodes. Unit {0}) IsSound (insert_row node_clash n db.nodes) _ (Gives-any _)
      (λ nodes u.
        Gives-require IsSound _ reference_violation (ok (record db { nodes = nodes })) (λ stored.
          Gives-ok IsSound _ (record { accounts = s.accounts; hosts = s.hosts; owned = s.owned })))

pub insert_default_validator-IsSound :
    (v : Validator) (db : TenantsDb) → IsSound db → Gives IsSound (insert_default_validator v db)
unfolding insert_default_validator
insert_default_validator-IsSound v db s =
    Gives-bind (λ vs. Unit {0}) IsSound (insert_row validator_clash v db.validators) _ (Gives-any _)
      (λ vs u.
        Gives-require IsSound _ reference_violation (ok (record db { validators = vs })) (λ stored.
          Gives-ok IsSound _ (record { accounts = s.accounts; hosts = s.hosts; owned = s.owned })))

stored_after :
    (t i : String) (tenants : List Tenant)
    → tenant_stored i tenants ≡ true
    → (i == t) ≡ false
    → tenant_stored i (filter (λ (row : Tenant). not (row.id == t)) tenants) ≡ true
stored_after t i [] h ne = h
stored_after t i (row ∷ tenants) h ne = ground (arith, stored_after t i tenants, eq_iff row.id i)

IsOwned-after :
    (t : String) (tenants : List Tenant) (bindings : List Binding)
    → All (IsOwned tenants) bindings
    → All
        (IsOwned (filter (λ (row : Tenant). not (row.id == t)) tenants))
        (filter (λ (b : Binding). not (b.tenant_id == t)) bindings)
IsOwned-after t tenants [] h = tt
IsOwned-after t tenants (b ∷ bindings) h =
    let rest = IsOwned-after t tenants bindings h.1 in
    elim (Bool-cases (b.tenant_id == t)) [
      | inl hit ↦ rw hit rest
      | inr miss ↦ rw miss (stored_after t b.tenant_id tenants h.0 miss, rest)
    ]

pub delete_tenant-IsSound :
    (t : String) (db : TenantsDb) → IsSound db → Gives IsSound (delete_tenant t db)
unfolding delete_tenant
delete_tenant-IsSound t db s =
    Gives-require IsSound (slugs_unique (kept_nodes t db)) unique_violation
      (ok (without_tenant t db))
      (λ unique. Gives-ok IsSound (without_tenant t db) (record {
        accounts = distinct-filter tenant_clash _ db.tenants s.accounts;
        hosts = distinct-filter binding_clash _ db.bindings s.hosts;
        owned = IsOwned-after t db.tenants db.bindings s.owned;
      }))
