-- ===== src/Tenants/Restored.antt =====
-- A community that is created and released: applyNodeProposal and releaseNodeProposal of
-- api/src/services/tenants.ts.
use citynode_app.Prelude.{
  ◌≡◌, refl, ap, ◌∙◌, inl, inr, String, Bool, true, false, Option-cases, Option, none, some, List,
  [], ◌∷◌, ◌++◌, arith, ◌==◌, ◌||◌, eq_refl, eq_iff, any, filter, map, not, opt_eq,
}
use citynode_app.Json.{Json}
use citynode_app.Geography.Types.{Node, Validator}
use citynode_app.Geography.Tree.{child_of}
use citynode_app.Geography.Nodes.{slugs_unique}
use citynode_app.Tenants.Types.{Tenant, Binding, TenantsDb, TenantsEnv, ok}
use citynode_app.Tenants.Rows.{
  node_of, node_stored, unparented, gone_nodes, kept_nodes, without_tenant, delete_tenant,
}
use citynode_app.Tenants.Distinct.{any-append}
use citynode_app.Tenants.Gives.{Gives-eq-ok}
use citynode_app.Tenants.Communities.{
  ProposalInput, apply_proposal, new_tenant, community_node, primary_binding, given, proposal_node,
  linked_node, release_proposal, release_of, in_use_by, Released,
}
use citynode_app.Tenants.Created.{grown, pool_rows, create_community-grows, linked_node-created}
use citynode_app.Tenants.Resumed.{created_of, linked_none}

-- the identifiers of the new tenant and node occur neither in the tables nor as the parent asked for
pub record IsFresh (input : ProposalInput) (env : TenantsEnv) (db : TenantsDb) : Type 0 where
  pub no_tenant : any (λ (t : Tenant). t.id == env.tenant_id) db.tenants ≡ false
  pub no_binding : any (λ (b : Binding). b.tenant_id == env.tenant_id) db.bindings ≡ false
  pub no_community : any (node_of env.tenant_id) db.nodes ≡ false
  pub no_child : any (child_of env.node_id) db.nodes ≡ false
  pub no_validator : any (λ (v : Validator). v.node_id == env.node_id) db.validators ≡ false
  pub other_parent : opt_eq input.parent_id (some env.node_id) ≡ false

module _ {ℓ} {A : Type ℓ} where
  filter_none : (p : A → Bool) (xs : List A) → any p xs ≡ false → filter p xs ≡ []
  filter_none p [] h = refl
  filter_none p (x ∷ xs) h = ground (arith, filter_none p xs)

  filter_all : (p : A → Bool) (xs : List A) → any p xs ≡ false → filter (λ x. not (p x)) xs ≡ xs
  filter_all p [] h = refl
  filter_all p (x ∷ xs) h = ground (arith, filter_all p xs)

  -- Filtering the last row out of rows that stay.
  filter_last :
      (p : A → Bool) (xs : List A) (x : A)
      → any p xs ≡ false
      → p x ≡ true
      → filter (λ y. not (p y)) (xs ++ x ∷ []) ≡ xs
  filter_last p [] x h hit = ground arith
  filter_last p (y ∷ xs) x h hit = ground (arith, filter_last p xs x)

  filter_only :
      (p : A → Bool) (xs : List A) (x : A)
      → any p xs ≡ false
      → p x ≡ true
      → filter p (xs ++ x ∷ []) ≡ x ∷ []
  filter_only p [] x h hit = ground arith
  filter_only p (y ∷ xs) x h hit = ground (arith, filter_only p xs x)

either_false : (a b : Bool) → (a || b) ≡ false → (a ≡ false) × (b ≡ false)
either_false true b h = cc
either_false false b h = (refl, h)

unparented_other : (n m : Node) → child_of n.id m ≡ false → unparented (n ∷ []) m ≡ m
unparented_other n m h = elim (Option-cases m.parent_id) [
  | inl root ↦ rw root refl
  | inr (p, e) ↦ ground (arith, e, eq_iff p n.id, eq_iff n.id p)
]

-- Nodes that are no children of the node that goes keep their parents.
map-unparented :
    (n : Node) (nodes : List Node)
    → any (child_of n.id) nodes ≡ false
    → map (unparented (n ∷ [])) nodes ≡ nodes
map-unparented n [] h = refl
map-unparented n (m ∷ nodes) h =
    let (mine, others) = either_false (child_of n.id m) (any (child_of n.id) nodes) h in
    rw (unparented_other n m mine, map-unparented n nodes others) refl

gone_created :
    (input : ProposalInput) (env : TenantsEnv) (db : TenantsDb)
    → IsFresh input env db
    → gone_nodes env.tenant_id (grown input env db) ≡ community_node input env ∷ []
gone_created input env db f =
    filter_only (node_of env.tenant_id) db.nodes (community_node input env) f.no_community
      (eq_refl env.tenant_id)

validators_after :
    (o : Option String) (env : TenantsEnv) (n : Node) (vs : List Validator)
    → n.id ≡ env.node_id
    → any (λ (v : Validator). v.node_id == env.node_id) vs ≡ false
    → filter (λ (v : Validator). not (node_stored v.node_id (n ∷ []))) (vs ++ pool_rows o env) ≡ vs
validators_after none env n [] e h = refl
validators_after (some pool) env n [] e h = ground (arith, eq_iff n.id env.node_id)
validators_after o env n (v ∷ vs) e h =
    ground (arith, validators_after o env n vs, eq_iff n.id v.node_id, eq_iff v.node_id env.node_id)

same_tables :
    {a b : TenantsDb}
    → a.tenants ≡ b.tenants
    → a.bindings ≡ b.bindings
    → a.nodes ≡ b.nodes
    → a.validators ≡ b.validators
    → a ≡ b
same_tables e f g h = cc

without_created :
    (input : ProposalInput) (env : TenantsEnv) (db : TenantsDb)
    → IsFresh input env db
    → without_tenant env.tenant_id (grown input env db) ≡ db
without_created input env db f =
    let n = community_node input env in
    let gone = gone_created input env db f in
    let tenants =
      filter_last (λ (t : Tenant). t.id == env.tenant_id) db.tenants (new_tenant input env)
        f.no_tenant (eq_refl env.tenant_id) in
    let bindings =
      filter_last (λ (b : Binding). b.tenant_id == env.tenant_id) db.bindings
        (primary_binding input env) f.no_binding (eq_refl env.tenant_id) in
    let nodes =
      filter_last (node_of env.tenant_id) db.nodes n f.no_community (eq_refl env.tenant_id) in
    let validators =
      validators_after (given input.pool_account_id) env n db.validators refl f.no_validator in
    same_tables tenants bindings
      (ap
          (λ rows.
            map (unparented rows)
              (filter (λ m. not (node_of env.tenant_id m)) (db.nodes ++ n ∷ [])))
          gone
        ∙ ap (λ rows. map (unparented (n ∷ [])) rows) nodes
        ∙ map-unparented n db.nodes f.no_child)
      (ap
          (λ rows.
            filter (λ (v : Validator). not (node_stored v.node_id rows))
              (db.validators ++ pool_rows (given input.pool_account_id) env))
          gone
        ∙ validators)

childless :
    (parent : Option String) (i : String)
    → opt_eq parent (some i) ≡ false
    → (elim parent [ none ↦ false | some p ↦ p == i ]) ≡ false
childless none i h = refl
childless (some p) i h = h

no_child_created :
    (input : ProposalInput) (env : TenantsEnv) (db : TenantsDb)
    → IsFresh input env db
    → any (child_of env.node_id) (db.nodes ++ community_node input env ∷ []) ≡ false
no_child_created input env db f =
    let last : child_of env.node_id (community_node input env) ≡ false =
      childless input.parent_id env.node_id f.other_parent in
    any-append (child_of env.node_id) db.nodes (community_node input env ∷ [])
    ∙ (rw (f.no_child, last) refl)

unused_created :
    (input : ProposalInput) (env : TenantsEnv) (db : TenantsDb)
    → IsFresh input env db
    → in_use_by (community_node input env) env.tenant_id (grown input env db) ≡ false
unused_created input env db f =
    rw (no_child_created input env db f, gone_created input env db f) refl

deleted_created :
    (input : ProposalInput) (env : TenantsEnv) (db : TenantsDb)
    → IsFresh input env db
    → slugs_unique db.nodes ≡ true
    → delete_tenant env.tenant_id (grown input env db) ≡ ok db
unfolding delete_tenant
deleted_created input env db f unique =
    let same = without_created input env db f in
    let kept : kept_nodes env.tenant_id (grown input env db) ≡ db.nodes =
      ap (λ (tables : TenantsDb). tables.nodes) same in
    let fits : slugs_unique (kept_nodes env.tenant_id (grown input env db)) ≡ true =
      ap slugs_unique kept ∙ unique in
    rw fits (ap (λ tables. ok tables) same)

released_created :
    (nested : Json → String) (input : ProposalInput) (env : TenantsEnv) (db : TenantsDb)
    (p : String)
    → given input.proposal_id ≡ some p
    → linked_node nested p db.nodes ≡ none
    → IsFresh input env db
    → slugs_unique db.nodes ≡ true
    → release_proposal nested p (grown input env db) ≡ ok (Released.released, db)
unfolding release_proposal
released_created nested input env db p e free f unique =
    ap (λ o. release_of o (grown input env db))
      (linked_node-created nested input env db.nodes p e free)
    ∙ rw (unused_created input env db f, deleted_created input env db f unique) refl

-- Releasing a proposal right after the application that created its community deletes what the
-- application inserted and nothing else: the tables are the ones from before it. The new identifiers
-- are fresh and the slugs of the nodes keep their index.
pub release-apply :
    (nested : Json → String) (input : ProposalInput) (env : TenantsEnv) (db after : TenantsDb)
    (p i : String)
    → given input.proposal_id ≡ some p
    → proposal_node nested input db ≡ none
    → IsFresh input env db
    → slugs_unique db.nodes ≡ true
    → apply_proposal nested input env db db ≡ ok (i, after)
    → release_proposal nested p after ≡ ok (Released.released, db)
release-apply nested input env db after p i e free f unique h =
    let made = created_of nested input env db (i, after) free h in
    let same = Gives-eq-ok _ _ (i, after) (create_community-grows input env db db) made in
    ap (λ (answer : String × TenantsDb). release_proposal nested p answer.1) same
    ∙ released_created nested input env db p e (linked_none nested input db p e free) f unique
