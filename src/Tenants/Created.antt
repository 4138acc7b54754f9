-- ===== src/Tenants/Created.antt =====
-- The rows that applyNodeProposal of api/src/services/tenants.ts inserts.
use citynode_app.Prelude.{
  ◌≡◌, refl, sym, ap, ◌∙◌, inl, inr, String, Bool, true, Option, none, some, List, [], ◌∷◌, ◌++◌,
  arith, eq_refl, Bool-cases, any, find,
}
use citynode_app.Json.{Json}
use citynode_app.Geography.Types.{Node, Validator}
use citynode_app.Geography.Nodes.{get_key}
use citynode_app.Tenants.Types.{
  Tenant, Binding, TenantsDb, TenantsEnv, ok, ◌>>◌, require, reference_violation, invalid_parent,
}
use citynode_app.Tenants.Rows.{
  insert_row, insert_tenant, insert_binding, insert_community_node, insert_default_validator,
  tenant_clash, binding_clash, node_clash, validator_clash, tenant_stored, node_stored,
}
use citynode_app.Tenants.Gives.{
  Gives, Gives-bind, Gives-require, Gives-ok, Gives-any, Gives-guard, Gives-mono,
}
use citynode_app.Tenants.Communities.{
  ProposalInput, insert_community, create_community, insert_pool, new_tenant, community_node,
  primary_binding, pool_validator, given, linked_node, is_linked, column_text, resources_free,
  parent_kind, parent_allowed,
}

abbrev pub pool_rows : Option String → TenantsEnv → List Validator
pool_rows none env = []
pool_rows (some pool) env = pool_validator pool env ∷ []

-- the tables with the rows of a new community
abbrev pub grown : ProposalInput → TenantsEnv → TenantsDb → TenantsDb
grown input env db = record {
  tenants = db.tenants ++ new_tenant input env ∷ [];
  bindings = db.bindings ++ primary_binding input env ∷ [];
  nodes = db.nodes ++ community_node input env ∷ [];
  validators = db.validators ++ pool_rows (given input.pool_account_id) env;
}

insert_row-grows {ℓ} :
    {Row : Type ℓ} (clash : Row → Row → Bool) (row : Row) (rows : List Row)
    → Gives (λ after. after ≡ rows ++ row ∷ []) (insert_row clash row rows)
unfolding Gives insert_row
insert_row-grows clash row rows = elim (Bool-cases (any (clash row) rows)) [
  | inl hit ↦ rw hit tt
  | inr free ↦ rw free refl
]

insert_tenant-grows :
    (t : Tenant) (db : TenantsDb)
    → Gives (λ after. after ≡ record db { tenants = db.tenants ++ t ∷ [] }) (insert_tenant t db)
unfolding insert_tenant
insert_tenant-grows t db =
    Gives-bind _ (λ after. after ≡ record db { tenants = db.tenants ++ t ∷ [] })
      (insert_row tenant_clash t db.tenants) _ (insert_row-grows tenant_clash t db.tenants)
      (λ rows same. Gives-ok _ _ (ap (λ tenants. record db { tenants = tenants }) same))

insert_binding-grows :
    (b : Binding) (db : TenantsDb)
    → Gives (λ after. after ≡ record db { bindings = db.bindings ++ b ∷ [] }) (insert_binding b db)
unfolding insert_binding
insert_binding-grows b db =
    let Q : TenantsDb → Type 0 = λ after. after ≡ record db { bindings = db.bindings ++ b ∷ [] } in
    Gives-bind _ Q (insert_row binding_clash b db.bindings) _
      (insert_row-grows binding_clash b db.bindings)
      (λ rows same.
        Gives-guard Q (require (tenant_stored b.tenant_id db.tenants) reference_violation)
          (ok (record db { bindings = rows }))
          (Gives-ok Q _ (ap (λ bindings. record db { bindings = bindings }) same)))

insert_community_node-grows :
    (n : Node) (db : TenantsDb)
    → Gives (λ after. after ≡ record db { nodes = db.nodes ++ n ∷ [] }) (insert_community_node n db)
unfolding insert_community_node
insert_community_node-grows n db =
    let Q : TenantsDb → Type 0 = λ after. after ≡ record db { nodes = db.nodes ++ n ∷ [] } in
    Gives-bind _ Q (insert_row node_clash n db.nodes) _ (insert_row-grows node_clash n db.nodes)
      (λ rows same.
        Gives-require Q _ reference_violation (ok (record db { nodes = rows }))
          (λ stored. Gives-ok Q _ (ap (λ nodes. record db { nodes = nodes }) same)))

append_none {ℓ} : {A : Type ℓ} (xs : List A) → xs ++ [] ≡ xs
append_none [] = refl
append_none (x ∷ xs) = ap (λ rest. x ∷ rest) (append_none xs)

insert_pool-grows :
    (o : Option String) (env : TenantsEnv) (db : TenantsDb)
    → Gives
        (λ after. after ≡ record db { validators = db.validators ++ pool_rows o env })
        (insert_pool o env db)
unfolding insert_default_validator
insert_pool-grows none env db =
    Gives-ok _ db (ap (λ rows. record db { validators = rows }) (sym (append_none db.validators)))
insert_pool-grows (some pool) env db =
    let v = pool_validator pool env in
    let Q : TenantsDb → Type 0 =
      λ after. after ≡ record db { validators = db.validators ++ v ∷ [] } in
    Gives-bind _ Q (insert_row validator_clash v db.validators) _
      (insert_row-grows validator_clash v db.validators)
      (λ rows same.
        Gives-guard Q (require (node_stored v.node_id db.nodes) reference_violation)
          (ok (record db { validators = rows }))
          (Gives-ok Q _ (ap (λ vs. record db { validators = vs }) same)))

insert_community-grows :
    (input : ProposalInput) (env : TenantsEnv) (db : TenantsDb)
    → Gives (λ after. after ≡ grown input env db) (insert_community input env db)
unfolding insert_community
insert_community-grows input env db =
    let Q : TenantsDb → Type 0 = λ after. after ≡ grown input env db in
    Gives-bind _ Q _ _ (insert_tenant-grows (new_tenant input env) db) (λ with_tenant e.
      Gives-bind _ Q _ _ (insert_community_node-grows (community_node input env) with_tenant)
        (λ with_node f.
          Gives-bind _ Q _ _ (insert_pool-grows (given input.pool_account_id) env with_node)
            (λ with_pool g.
              Gives-mono _ Q _ (λ after h. h ∙ cc)
                (insert_binding-grows (primary_binding input env) with_pool))))

-- What a community is created with: its node, and the tables with its rows.
pub create_community-grows :
    (input : ProposalInput) (env : TenantsEnv) (seen db : TenantsDb)
    → Gives
        (λ answer. answer ≡ (env.node_id, grown input env db))
        (create_community input env seen db)
unfolding create_community
create_community-grows input env seen db =
    let Q : String × TenantsDb → Type 0 = λ answer. answer ≡ (env.node_id, grown input env db) in
    Gives-bind (λ kind. Unit {0}) Q
      (resources_free input seen >> parent_kind input.parent_id seen.nodes) _ (Gives-any _)
      (λ kind u.
        Gives-bind (λ after. after ≡ grown input env db) Q
          (require (parent_allowed input.kind input.parent_id kind) invalid_parent
            >> insert_community input env db)
          _
          (Gives-guard _ (require (parent_allowed input.kind input.parent_id kind) invalid_parent)
            (insert_community input env db) (insert_community-grows input env db))
          (λ after same. Gives-ok Q _ (ap (λ tables. (env.node_id, tables)) same)))

find-append {ℓ} :
    {A : Type ℓ} (p : A → Bool) (xs : List A) (x : A)
    → find p xs ≡ none
    → p x ≡ true
    → find p (xs ++ x ∷ []) ≡ some x
find-append p [] x free hit = rw hit refl
find-append p (y ∷ xs) x free hit = ground (arith, find-append p xs x)

is_linked-created :
    (nested : Json → String) (input : ProposalInput) (env : TenantsEnv) (p : String)
    → given input.proposal_id ≡ some p
    → is_linked nested p (community_node input env) ≡ true
unfolding is_linked column_text get_key
is_linked-created nested input env p e = rw (e, eq_refl p)

-- The node of a new community is linked to its proposal.
pub linked_node-created :
    (nested : Json → String) (input : ProposalInput) (env : TenantsEnv) (nodes : List Node)
    (p : String)
    → given input.proposal_id ≡ some p
    → linked_node nested p nodes ≡ none
    → linked_node nested p (nodes ++ community_node input env ∷ [])
      ≡ some (community_node input env)
unfolding linked_node
linked_node-created nested input env nodes p e free =
    find-append (is_linked nested p) nodes (community_node input env) free
      (is_linked-created nested input env p e)
