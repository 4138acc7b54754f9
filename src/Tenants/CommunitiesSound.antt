-- ===== src/Tenants/CommunitiesSound.antt =====
-- applyNodeProposal and releaseNodeProposal of api/src/services/tenants.ts, from sound tables.
use citynode_app.Prelude.{Option-cases, inl, inr, String, Option, none, some}
use citynode_app.Json.{Json}
use citynode_app.Geography.Types.{Node}
use citynode_app.Tenants.Types.{
  TenantsDb, TenantsEnv, TenantsResult, ok, ◌>>=◌, ◌>>◌, require, invalid_parent,
}
use citynode_app.Tenants.Rows.{delete_tenant}
use citynode_app.Tenants.Gives.{Gives, Gives-bind, Gives-if, Gives-any, Gives-guard, Gives-ok}
use citynode_app.Tenants.Sound.{
  IsSound, insert_binding-IsSound, insert_tenant-IsSound, insert_community_node-IsSound,
  insert_default_validator-IsSound, delete_tenant-IsSound,
}
use citynode_app.Tenants.Communities.{
  ProposalInput, apply_proposal, release_proposal, insert_community, create_community, insert_pool,
  new_tenant, community_node, primary_binding, given, resumed, recovered, proposal_node, release_of,
  linked_node, in_use_by, Released, KeptReason, pool_validator, resources_free, parent_kind,
  parent_allowed,
}
use citynode_app.Tenants.BindingsSound.{SoundRest}
use citynode_app.Tenants.Recovered.{recovered-cases}

pub insert_pool-IsSound :
    (o : Option String) (env : TenantsEnv) (db : TenantsDb)
    → IsSound db
    → Gives IsSound (insert_pool o env db)
insert_pool-IsSound none env db s = Gives-ok IsSound db s
insert_pool-IsSound (some pool) env db s =
    insert_default_validator-IsSound (pool_validator pool env) db s

pub insert_community-IsSound :
    (input : ProposalInput) (env : TenantsEnv) (db : TenantsDb)
    → IsSound db
    → Gives IsSound (insert_community input env db)
unfolding insert_community
insert_community-IsSound input env db s =
    Gives-bind IsSound IsSound _ _ (insert_tenant-IsSound (new_tenant input env) db s)
      (λ with_tenant h.
        Gives-bind IsSound IsSound _ _
          (insert_community_node-IsSound (community_node input env) with_tenant h)
          (λ with_node k.
            Gives-bind IsSound IsSound _ _
              (insert_pool-IsSound (given input.pool_account_id) env with_node k)
              (λ with_pool l. insert_binding-IsSound (primary_binding input env) with_pool l)))

pub create_community-IsSound :
    (input : ProposalInput) (env : TenantsEnv) (seen db : TenantsDb)
    → IsSound db
    → Gives SoundRest (create_community input env seen db)
unfolding create_community
create_community-IsSound input env seen db s =
    Gives-bind (λ kind. Unit {0}) SoundRest
      (resources_free input seen >> parent_kind input.parent_id seen.nodes) _ (Gives-any _)
      (λ kind u.
        Gives-bind IsSound SoundRest
          (require (parent_allowed input.kind input.parent_id kind) invalid_parent
            >> insert_community input env db)
          _
          (Gives-guard IsSound
            (require (parent_allowed input.kind input.parent_id kind) invalid_parent)
            (insert_community input env db) (insert_community-IsSound input env db s))
          (λ after h. Gives-ok SoundRest (env.node_id, after) h))

pub resumed-IsSound :
    (o : Option Node) (db : TenantsDb) (created : TenantsResult (String × TenantsDb))
    → IsSound db
    → Gives SoundRest created
    → Gives SoundRest (resumed o db created)
resumed-IsSound none db created s h = h
resumed-IsSound (some n) db created s h = Gives-ok SoundRest (n.id, db) s

pub recovered-IsSound :
    (o : Option Node) (db : TenantsDb) (answer : TenantsResult (String × TenantsDb))
    → IsSound db
    → Gives SoundRest answer
    → Gives SoundRest (recovered o db answer)
unfolding Gives
recovered-IsSound o db answer s h = elim (recovered-cases o db answer) [
  | inl same ↦ rw same h
  | inr (inl lost) ↦ rw lost tt
  | inr (inr (n, same, found)) ↦ rw found s
]

pub apply_proposal-IsSound :
    (nested : Json → String) (input : ProposalInput) (env : TenantsEnv) (seen db : TenantsDb)
    → IsSound db
    → Gives SoundRest (apply_proposal nested input env seen db)
unfolding apply_proposal
apply_proposal-IsSound nested input env seen db s =
    recovered-IsSound (proposal_node nested input db) db _ s (
      resumed-IsSound (proposal_node nested input seen) db (create_community input env seen db) s
        (create_community-IsSound input env seen db s))

pub release_of-IsSound :
    (o : Option Node) (db : TenantsDb) → IsSound db → Gives SoundRest (release_of o db)
release_of-IsSound none db s = Gives-ok SoundRest _ s
release_of-IsSound (some n) db s = elim (Option-cases n.tenant_id) [
  | inl null ↦ rw null (Gives-ok SoundRest (Released.kept KeptReason.not_found, db) s)
  | inr (t, owned) ↦ rw owned (
      Gives-if SoundRest (in_use_by n t db) (ok (Released.kept KeptReason.in_use, db))
        (delete_tenant t db >>= λ after. ok (Released.released, after))
        (Gives-ok SoundRest (Released.kept KeptReason.in_use, db) s)
        (Gives-bind IsSound SoundRest (delete_tenant t db) _ (delete_tenant-IsSound t db s)
          (λ after h. Gives-ok SoundRest (Released.released, after) h)))
]

pub release_proposal-IsSound :
    (nested : Json → String) (p : String) (db : TenantsDb)
    → IsSound db
    → Gives SoundRest (release_proposal nested p db)
unfolding release_proposal
release_proposal-IsSound nested p db s = release_of-IsSound (linked_node nested p db.nodes) db s
