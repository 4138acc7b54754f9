-- ===== src/Tenants/Rows.antt =====
-- The statements that api/src/services/tenants.ts sends, with the keys of api/src/db/schema.ts.
use citynode_app.Prelude.{
  String, Bool, true, Option, none, some, List, [], ◌∷◌, ◌++◌, map, if◌then◌else◌, ◌==◌, ◌&&◌, ◌||◌,
  not, any, filter, opt_eq,
}
use citynode_app.Geography.Types.{Node, Validator}
use citynode_app.Geography.Nodes.{slug_clash, slugs_unique}
use citynode_app.Tenants.Types.{
  Tenant, Binding, TenantsDb, TenantsResult, ok, err, ◌>>=◌, ◌>>◌, require, unique_violation,
  reference_violation,
}

-- two rows that a key or a unique index does not let stand together
abbrev pub tenant_clash : Tenant → Tenant → Bool
tenant_clash a b = a.id == b.id || a.account_id == b.account_id

abbrev pub binding_clash : Binding → Binding → Bool
binding_clash a b =
    a.id == b.id
    || a.hostname == b.hostname
    || (a.tenant_id == b.tenant_id && a.is_primary && b.is_primary)

abbrev pub validator_clash : Validator → Validator → Bool
validator_clash a b = a.id == b.id || (a.node_id == b.node_id && a.is_default && b.is_default)

abbrev pub node_clash : Node → Node → Bool
node_clash a b = a.id == b.id || slug_clash a b

-- no two rows clash
unfoldable pub distinct {ℓ} : {Row : Type ℓ} → (Row → Row → Bool) → List Row → Bool
distinct clash [] = true
distinct clash (row ∷ rows) = not (any (clash row) rows) && distinct clash rows

unfoldable pub insert_row {ℓ} :
    {Row : Type ℓ} → (Row → Row → Bool) → Row → List Row → TenantsResult (List Row)
insert_row clash row rows =
    if any (clash row) rows then err unique_violation else ok (rows ++ row ∷ [])

-- update … set … where …
unfoldable pub set_where {ℓ} : {Row : Type ℓ} → (Row → Bool) → (Row → Row) → List Row → List Row
set_where chosen set [] = []
set_where chosen set (row ∷ rows) =
    (if chosen row then set row else row) ∷ set_where chosen set rows

unfoldable pub update_rows {ℓ} :
    {Row : Type ℓ}
    → (Row → Row → Bool)
    → (Row → Bool)
    → (Row → Row)
    → List Row
    → TenantsResult (List Row)
unfolding set_where distinct
update_rows clash chosen set rows =
    if distinct clash (set_where chosen set rows)
    then ok (set_where chosen set rows)
    else err unique_violation

abbrev pub tenant_stored : String → List Tenant → Bool
tenant_stored t tenants = any (λ (row : Tenant). row.id == t) tenants

abbrev pub node_stored : String → List Node → Bool
node_stored i nodes = any (λ (row : Node). row.id == i) nodes

unfoldable pub insert_binding : Binding → TenantsDb → TenantsResult TenantsDb
unfolding insert_row
insert_binding b db = do
  bindings ← insert_row binding_clash b db.bindings
  stored ← require (tenant_stored b.tenant_id db.tenants) reference_violation
  ok (record db { bindings = bindings })

unfoldable pub insert_tenant : Tenant → TenantsDb → TenantsResult TenantsDb
unfolding insert_row
insert_tenant t db =
    insert_row tenant_clash t db.tenants >>= λ tenants. ok (record db { tenants = tenants })

abbrev pub stored_or_null : (String → Bool) → Option String → Bool
stored_or_null stored none = true
stored_or_null stored (some i) = stored i

unfoldable pub insert_community_node : Node → TenantsDb → TenantsResult TenantsDb
unfolding insert_row
insert_community_node n db = do
  nodes ← insert_row node_clash n db.nodes
  stored ←
      require
        (stored_or_null (λ t. tenant_stored t db.tenants) n.tenant_id
          && stored_or_null (λ p. node_stored p nodes) n.parent_id)
        reference_violation
  ok (record db { nodes = nodes })

unfoldable pub insert_default_validator : Validator → TenantsDb → TenantsResult TenantsDb
unfolding insert_row
insert_default_validator v db = do
  validators ← insert_row validator_clash v db.validators
  stored ← require (node_stored v.node_id db.nodes) reference_violation
  ok (record db { validators = validators })

abbrev pub node_of : String → Node → Bool
node_of t n = opt_eq n.tenant_id (some t)

-- the foreign key of a child, on delete set null
abbrev pub unparented : List Node → Node → Node
unparented gone n = elim n.parent_id [
  | none ↦ n
  | some p ↦ if node_stored p gone then record n { parent_id = none } else n
]

abbrev pub gone_nodes : String → TenantsDb → List Node
gone_nodes t db = filter (node_of t) db.nodes

-- the nodes that stay: a child of a node that goes loses its parent
abbrev pub kept_nodes : String → TenantsDb → List Node
kept_nodes t db = map (unparented (gone_nodes t db)) (filter (λ n. not (node_of t n)) db.nodes)

-- the bindings and the nodes of the tenant go, and the validators of those nodes
abbrev pub without_tenant : String → TenantsDb → TenantsDb
without_tenant t db = record {
  tenants = filter (λ (row : Tenant). not (row.id == t)) db.tenants;
  bindings = filter (λ (b : Binding). not (b.tenant_id == t)) db.bindings;
  nodes = kept_nodes t db;
  validators =
      filter (λ (v : Validator). not (node_stored v.node_id (gone_nodes t db))) db.validators;
}

-- delete … where id = …, with the cascades
unfoldable pub delete_tenant : String → TenantsDb → TenantsResult TenantsDb
unfolding slugs_unique
delete_tenant t db =
    require (slugs_unique (kept_nodes t db)) unique_violation >> ok (without_tenant t db)
