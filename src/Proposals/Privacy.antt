-- ===== src/Proposals/Privacy.antt =====
-- Who may read a proposal of a private plugin through plugins/proposals/src/index.ts.
use citynode_app.Prelude.{
  String, ℕ, ◌≡◌, ◌≢◌, refl, sym, ap, ◌∙◌, inl, inr, Bool, true, false, Option, none, some, List,
  [], ◌∷◌, arith, ◌==◌, eq_iff, eq_refl, not, ◌&&◌, ◌||◌, any, find, filter, map, if◌then◌else◌,
  Bool-cases, Option-cases,
}
use citynode_app.Proposals.Types.{Row, Db}
use citynode_app.Proposals.Service.{Proposal, load_proposal, loaded_row}
use citynode_app.Proposals.Table.{has_key, select}
use citynode_app.Proposals.Queries.{ProposalFilter, text_matches, visible, where_clause}
use citynode_app.Proposals.Pages.{page, take, present, get_proposals}
use citynode_app.Proposals.Session.{Session, has_admin_role, viewer_id, nonempty}
use citynode_app.Proposals.Readers.{scoped, about, is_empty, can_read_proposal}

abbrev pub applied_by : String → String → String → Row → Bool
applied_by viewer plugin entity r =
    r.plugin_id == plugin && r.entity_id == entity && r.created_by == viewer

abbrev pub is_applicant : Option String → List Row → String → String → Bool
is_applicant none rows plugin entity = false
is_applicant (some viewer) rows plugin entity = any (applied_by viewer plugin entity) rows

-- The plugin is not private, or the caller is an admin or a stored proposal of the entity is theirs.
unfoldable pub may_read : List String → List Row → Session → String → String → Bool
may_read private_plugin_ids rows s plugin entity =
    not (any (λ p. p == plugin) private_plugin_ids)
    || has_admin_role s.user
    || is_applicant (nonempty (viewer_id s)) rows plugin entity

-- An order of rows keeps them.
abbrev pub KeepsRows : (List Row → List Row) → Type 0
KeepsRows order = (p : Row → Bool) (rows : List Row) → any p (order rows) ≡ any p rows

any_kept : (p : Row → Bool) (rows : List Row) → any (λ r. true) (filter p rows) ≡ any p rows
any_kept p [] = refl
any_kept p (r ∷ rows) = ground (arith, any_kept p rows)

any-filter : (q p : Row → Bool) (rows : List Row) → any q (filter p rows) ≡ true → any q rows ≡ true
any-filter q p [] h = h
any-filter q p (r ∷ rows) h = ground (arith, any-filter q p rows)

any_found :
    (q : Row → Bool) (rows : List Row)
    → any q rows ≡ true
    → (r : Row) × (find q rows ≡ some r) × (q r ≡ true)
any_found q [] h = cc
any_found q (r ∷ rows) h = elim (Bool-cases (q r)) [
  | inl here ↦ (r, rw here, here)
  | inr other ↦
      let (x, found, holds) = any_found q rows (rw other at h) in (x, rw other found, holds)
]

any_here : (q : Row → Bool) (r : Row) (rows : List Row) → q r ≡ true → any q (r ∷ rows) ≡ true
any_here q r rows h = rw h

has_key_refl : (r : Row) → has_key r.plugin_id r.entity_id r ≡ true
has_key_refl r = rw (eq_refl r.plugin_id, eq_refl r.entity_id)

pub has_key_lem :
    (r : Row) (plugin entity : String)
    → has_key plugin entity r ≡ true
    → (r.plugin_id ≡ plugin) × (r.entity_id ≡ entity)
has_key_lem r plugin entity h =
    (ground (arith, eq_iff r.plugin_id plugin), ground (arith, eq_iff r.entity_id entity))

pub load_stored :
    (now : ℕ) (db : Db) (plugin entity : String)
    → any (has_key plugin entity) db.proposals ≡ true
    → (p : Proposal) × (load_proposal now db plugin entity ≡ some p)
      × (p.row.plugin_id ≡ plugin)
      × (p.row.entity_id ≡ entity)
unfolding load_proposal loaded_row select
load_stored now db plugin entity h =
    let (r, found, keyed) = any_found (has_key plugin entity) db.proposals h in
    let (same_plugin, same_entity) = has_key_lem r plugin entity keyed in
    (_, ap (loaded_row now db) found, same_plugin, same_entity)

abbrev leads : ℕ → Db → List Row → Bool
leads now db rows = not (
    is_empty
      (present (map (λ (r : Row). load_proposal now db r.plugin_id r.entity_id) (take 1 rows))))

-- A page of one row is empty exactly if no row passes the filter.
leads-filter :
    (now : ℕ) (db : Db) (p : Row → Bool) (order : List Row → List Row)
    → KeepsRows order
    → leads now db (order (filter p db.proposals)) ≡ any p db.proposals
leads-filter now db p order keeps =
    first (order (filter p db.proposals)) (λ q. keeps q (filter p db.proposals))
    ∙ any_kept p db.proposals
  where
    first :
        (rows : List Row)
        → ((q : Row → Bool) → any q rows ≡ any q (filter p db.proposals))
        → leads now db rows ≡ any (λ r. true) (filter p db.proposals)
    first [] k = k (λ r. true)
    first (r ∷ rows) k =
        let (q, loaded, _, _) = load_stored now db r.plugin_id r.entity_id (
          any-filter (has_key r.plugin_id r.entity_id) p db.proposals (
            sym (k (has_key r.plugin_id r.entity_id))
            ∙ any_here (has_key r.plugin_id r.entity_id) r rows (has_key_refl r))) in
        rw loaded (k (λ r. true))

abbrev pub is_own : Option String → Row → Bool
is_own none r = false
is_own (some viewer) r = r.created_by == viewer

any_sym : (x : String) (xs : List String) → any (λ y. x == y) xs ≡ any (λ y. y == x) xs
any_sym x [] = refl
any_sym x (y ∷ xs) = ground (arith, eq_iff x y, eq_iff y x, any_sym x xs)

pub visible_own :
    (input : ProposalFilter) (r : Row)
    → input.is_admin ≡ false
    → any (λ p. p == r.plugin_id) input.private_plugin_ids ≡ true
    → visible input r ≡ is_own (nonempty input.viewer_id) r
unfolding visible
visible_own input r admin private = elim (Option-cases input.viewer_id) [
  | inl nobody ↦ rw (nobody, admin, any_sym r.plugin_id input.private_plugin_ids ∙ private) refl
  | inr (viewer, v) ↦ elim (Bool-cases (viewer == "")) [
    | inl blank ↦ rw (v, admin, any_sym r.plugin_id input.private_plugin_ids ∙ private, blank) refl
    | inr named ↦ rw (v, admin, any_sym r.plugin_id input.private_plugin_ids ∙ private, named) refl
  ]
]

own-is_applicant :
    (viewer : Option String) (plugin entity : String) (r : Row)
    → (has_key plugin entity r && is_own viewer r) ≡ is_applicant viewer (r ∷ []) plugin entity
own-is_applicant none plugin entity r = ground arith
own-is_applicant (some viewer) plugin entity r = ground arith

named_exactly :
    (plugin entity : String) (r : Row)
    → plugin ≢ ""
    → entity ≢ ""
    → (text_matches (some plugin) r.plugin_id && text_matches (some entity) r.entity_id)
      ≡ has_key plugin entity r
named_exactly plugin entity r p e = ground (arith, eq_iff plugin "", eq_iff entity "")

-- The rows that the filter of canReadProposal selects, for someone who is no admin.
selects_own :
    (ilike : String → Row → Bool) (private_plugin_ids : List String) (s : Session)
    (plugin entity : String) (now : ℕ) (r : Row)
    → plugin ≢ ""
    → entity ≢ ""
    → has_admin_role s.user ≡ false
    → any (λ p. p == plugin) private_plugin_ids ≡ true
    → where_clause ilike (scoped private_plugin_ids s (about plugin entity)) now r
      ≡ is_applicant (nonempty (viewer_id s)) (r ∷ []) plugin entity
unfolding where_clause scoped
selects_own ilike private_plugin_ids s plugin entity now r np ne admin private =
    elim (Bool-cases (has_key plugin entity r)) [
      | inr other ↦ ground (
        arith,
        named_exactly plugin entity r np ne,
        own-is_applicant (nonempty (viewer_id s)) plugin entity r,
      )
      | inl same ↦ ground (
        arith,
        named_exactly plugin entity r np ne,
        own-is_applicant (nonempty (viewer_id s)) plugin entity r,
        visible_own (scoped private_plugin_ids s (about plugin entity)) r admin (
            ap (λ x. any (λ p. p == x) private_plugin_ids) (has_key_lem r plugin entity same).0
            ∙ private),
      )
    ]

any_same :
    (p : Row → Bool) (viewer : Option String) (plugin entity : String) (rows : List Row)
    → ((r : Row) → p r ≡ is_applicant viewer (r ∷ []) plugin entity)
    → any p rows ≡ is_applicant viewer rows plugin entity
any_same p none plugin entity [] h = refl
any_same p (some viewer) plugin entity [] h = refl
any_same p none plugin entity (r ∷ rows) h =
    ground (arith, h r, any_same p none plugin entity rows h)
any_same p (some viewer) plugin entity (r ∷ rows) h =
    ground (arith, h r, any_same p (some viewer) plugin entity rows h)

gated :
    (private admin read own : Bool)
    → (private ≡ true → admin ≡ false → read ≡ own)
    → (if not private || admin then true else read) ≡ (not private || admin || own)
gated false admin read own h = refl
gated true true read own h = refl
gated true false read own h = h refl refl

-- canReadProposal of a plugin and an entity with names that are not empty, over any order that keeps
-- the rows: the plugin is not private, or the caller is an admin, or a stored proposal of the entity
-- was created under the caller's name, which is not empty.
pub can_read_proposal_lem :
    (private_plugin_ids : List String) (ilike : String → Row → Bool) (order : List Row → List Row)
    (now : ℕ) (db : Db) (s : Session) (plugin entity : String)
    → KeepsRows order
    → plugin ≢ ""
    → entity ≢ ""
    → can_read_proposal private_plugin_ids ilike order now db s plugin entity
      ≡ may_read private_plugin_ids db.proposals s plugin entity
unfolding can_read_proposal may_read get_proposals page
can_read_proposal_lem private_plugin_ids ilike order now db s plugin entity keeps np ne =
    gated (any (λ p. p == plugin) private_plugin_ids) (has_admin_role s.user) _ _ (λ private other.
      leads-filter now db
        (where_clause ilike (scoped private_plugin_ids s (about plugin entity)) now) order keeps
      ∙ any_same _ (nonempty (viewer_id s)) plugin entity db.proposals
          (λ r. selects_own ilike private_plugin_ids s plugin entity now r np ne other private))
