-- ===== src/Tenants/Resumed.antt =====
-- An application of one proposal made twice: applyNodeProposal of api/src/services/tenants.ts.
use citynode_app.Prelude.{
  ◌≡◌, refl, sym, ap, ◌∙◌, subst, inl, inr, String, Bool, true, Option, none, some, [], ◌∷◌, ◌++◌,
  arith, eq_refl, Bool-cases, Option-cases, any, or_else,
}
use citynode_app.Json.{Json}
use citynode_app.Geography.Types.{Node}
use citynode_app.Tenants.Types.{
  TenantsDb, TenantsEnv, TenantsResult, ok, err, ◌>>=◌, ◌>>◌, require, unique_violation,
  invalid_parent,
}
use citynode_app.Tenants.Rows.{insert_row, insert_tenant, tenant_clash}
use citynode_app.Tenants.Distinct.{any-append}
use citynode_app.Tenants.Gives.{Gives-eq-ok}
use citynode_app.Tenants.Communities.{
  ProposalInput, apply_proposal, create_community, insert_community, new_tenant, community_node,
  given, linked_or_owned, recovered, proposal_node, linked_node, owned_node, resources_free,
  parent_kind, parent_allowed,
}
use citynode_app.Tenants.Recovered.{recovered-cases}
use citynode_app.Tenants.Created.{grown, create_community-grows, linked_node-created}

-- the checks that precede the inserts, which read the tables `seen`
abbrev pub checks : ProposalInput → TenantsDb → TenantsResult (Option String)
checks input seen = resources_free input seen >> parent_kind input.parent_id seen.nodes

passed :
    (r : TenantsResult (Option String)) (allowed : Option String → Bool)
    (inserted : TenantsResult TenantsDb) (i : String) (answer : String × TenantsDb)
    → (r >>= λ kind. require (allowed kind) invalid_parent >> inserted >>= λ after. ok (i, after))
      ≡ ok answer
    → (kind : Option String) × (r ≡ ok kind) × (allowed kind ≡ true)
passed (err e) allowed inserted i answer h = cc
passed (ok kind) allowed inserted i answer h = elim (Bool-cases (allowed kind)) [
  | inl yes_it_is ↦ (kind, refl, yes_it_is)
  | inr forbidden ↦ cc (rw forbidden at h)
]

-- A community of a stored account cannot be inserted.
insert_again :
    (input : ProposalInput) (env again : TenantsEnv) (db : TenantsDb)
    → insert_community input again (grown input env db) ≡ err unique_violation
unfolding insert_community insert_tenant insert_row
insert_again input env again db =
    let hit : any (tenant_clash (new_tenant input again)) (db.tenants ++ new_tenant input env ∷ [])
        ≡ true =
      ground (
        arith,
        any-append (tenant_clash (new_tenant input again)) db.tenants (new_tenant input env ∷ []),
        eq_refl input.account_id,
      ) in
    rw hit refl

-- Another call that read before the first wrote meets the key of the account.
raced :
    (input : ProposalInput) (env again : TenantsEnv) (db : TenantsDb) (answer : String × TenantsDb)
    → create_community input env db db ≡ ok answer
    → create_community input again db (grown input env db) ≡ err unique_violation
unfolding create_community
raced input env again db answer h =
    let (kind, checked, allowed) =
      passed (checks input db) (parent_allowed input.kind input.parent_id)
        (insert_community input env db) env.node_id answer h in
    rw (checked, allowed, insert_again input env again db) refl

ok-injective {ℓ} : {A : Type ℓ} {a b : A} → ok a ≡ ok b → a ≡ b
ok-injective h = cc

created_ok :
    (db : TenantsDb) (created : TenantsResult (String × TenantsDb)) (answer : String × TenantsDb)
    → recovered none db created ≡ ok answer
    → created ≡ ok answer
created_ok db created answer h = elim (recovered-cases none db created) [
  | inl same ↦ sym same ∙ h
  | inr (inl lost) ↦ cc
  | inr (inr (n, found, e)) ↦ cc
]

-- An application that found no node of its proposal created one.
pub created_of :
    (nested : Json → String) (input : ProposalInput) (env : TenantsEnv) (db : TenantsDb)
    (answer : String × TenantsDb)
    → proposal_node nested input db ≡ none
    → apply_proposal nested input env db db ≡ ok answer
    → create_community input env db db ≡ ok answer
unfolding apply_proposal
created_of nested input env db answer free h =
    created_ok db (create_community input env db db) answer (rw free at h)

proposal_node-given :
    (nested : Json → String) (input : ProposalInput) (db : TenantsDb) (p : String)
    → given input.proposal_id ≡ some p
    → proposal_node nested input db ≡ or_else (linked_node nested p db.nodes) (owned_node input db)
unfolding proposal_node
proposal_node-given nested input db p e = ap (linked_or_owned nested input db) e

or_else-fst {ℓ} : {A : Type ℓ} (a b : Option A) → or_else a b ≡ none → a ≡ none
or_else-fst none b e = refl
or_else-fst (some a) b e = cc

-- No node is linked to a proposal that has none.
pub linked_none :
    (nested : Json → String) (input : ProposalInput) (db : TenantsDb) (p : String)
    → given input.proposal_id ≡ some p
    → proposal_node nested input db ≡ none
    → linked_node nested p db.nodes ≡ none
linked_none nested input db p e free =
    or_else-fst (linked_node nested p db.nodes) (owned_node input db)
      (sym (proposal_node-given nested input db p e) ∙ free)

pub proposal_node-created :
    (nested : Json → String) (input : ProposalInput) (env : TenantsEnv) (db : TenantsDb)
    (p : String)
    → given input.proposal_id ≡ some p
    → proposal_node nested input db ≡ none
    → proposal_node nested input (grown input env db) ≡ some (community_node input env)
proposal_node-created nested input env db p e free =
    let unlinked : linked_node nested p db.nodes ≡ none = linked_none nested input db p e free in
    proposal_node-given nested input (grown input env db) p e
    ∙ ap (λ o. or_else o (owned_node input (grown input env db)))
        (linked_node-created nested input env db.nodes p e unlinked)

recovered-ok :
    (o : Option Node) (db : TenantsDb) (answer : String × TenantsDb)
    → recovered o db (ok answer) ≡ ok answer
recovered-ok none db answer = refl
recovered-ok (some n) db answer = refl

apply_found :
    (nested : Json → String) (input : ProposalInput) (env : TenantsEnv) (seen db : TenantsDb)
    (n : Node)
    → proposal_node nested input seen ≡ some n
    → apply_proposal nested input env seen db ≡ ok (n.id, db)
unfolding apply_proposal
apply_found nested input env seen db n found =
    rw found (recovered-ok (proposal_node nested input db) db (n.id, db))

apply_raced :
    (nested : Json → String) (input : ProposalInput) (env : TenantsEnv) (seen db : TenantsDb)
    (n : Node)
    → proposal_node nested input seen ≡ none
    → create_community input env seen db ≡ err unique_violation
    → proposal_node nested input db ≡ some n
    → apply_proposal nested input env seen db ≡ ok (n.id, db)
unfolding apply_proposal
apply_raced nested input env seen db n unseen failed found = rw (unseen, failed, found) refl

-- the two further applications, from the tables that the first left
abbrev pub AnswersAgain :
    (Json → String) → ProposalInput → TenantsEnv → TenantsDb → String × TenantsDb → Type 0
AnswersAgain nested input again db (i, after) =
    (apply_proposal nested input again after after ≡ ok (i, after))
    × (apply_proposal nested input again db after ≡ ok (i, after))

created_again :
    (nested : Json → String) (input : ProposalInput) (env again : TenantsEnv) (db : TenantsDb)
    (p : String) (answer : String × TenantsDb)
    → given input.proposal_id ≡ some p
    → proposal_node nested input db ≡ none
    → create_community input env db db ≡ ok answer
    → AnswersAgain nested input again db (env.node_id, grown input env db)
created_again nested input env again db p answer e free made =
    let found = proposal_node-created nested input env db p e free in
    let after = grown input env db in
    (
      apply_found nested input again after after (community_node input env) found,
      apply_raced nested input again db after (community_node input env) free
          (raced input env again db answer made) found,
    )

-- An application of a proposal that has succeeded, made again with any clock and identifiers,
-- answers the same node and changes nothing: both when it reads the tables that the first left, and
-- when it has read the tables from before the first and meets its rows on insert.
pub apply_twice :
    (nested : Json → String) (input : ProposalInput) (env again : TenantsEnv) (db after : TenantsDb)
    (p i : String)
    → given input.proposal_id ≡ some p
    → apply_proposal nested input env db db ≡ ok (i, after)
    → (apply_proposal nested input again after after ≡ ok (i, after))
      × (apply_proposal nested input again db after ≡ ok (i, after))
apply_twice nested input env again db after p i e h =
    elim (Option-cases (proposal_node nested input db)) [
      | inl free ↦
          let made = created_of nested input env db (i, after) free h in
          let same = Gives-eq-ok _ _ (i, after) (create_community-grows input env db db) made in
          subst (AnswersAgain nested input again db) (sym same)
            (created_again nested input env again db p (i, after) e free made)
      | inr (n, found) ↦
          let first : ok (n.id, db) ≡ ok (i, after) =
            sym (apply_found nested input env db db n found) ∙ h in
          let same : (n.id, db) ≡ (i, after) = ok-injective first in
          let answer = apply_found nested input again db db n found in
          subst (AnswersAgain nested input again db) same (answer, answer)
    ]
