-- ===== src/Proposals/Hidden.antt =====
-- What `getProposals` of plugins/proposals/src/index.ts shows someone who is no admin.
use citynode_app.Prelude.{
  String, ℕ, zero, suc, ◌≡◌, refl, sym, ◌∙◌, subst, inl, inr, Bool, true, false, Option, none, some,
  List, [], ◌∷◌, arith, ◌==◌, eq_iff, eq_refl, if◌then◌else◌, not, any, find, filter, map,
  Bool-cases, Option-cases, All, All-mono,
}
use citynode_app.Proposals.Types.{Row, null, Db}
use citynode_app.Proposals.Service.{Proposal, load_proposal, loaded_row}
use citynode_app.Proposals.Table.{has_key, select}
use citynode_app.Proposals.Queries.{ProposalFilter, visible, where_clause}
use citynode_app.Proposals.Pages.{
  Page, page, page_limit, take, drop, offset_of, present, get_proposals,
}
use citynode_app.Proposals.Session.{Session, has_admin_role, viewer_id, nonempty}
use citynode_app.Proposals.Readers.{ListInput, scoped, hidden, list_proposals}
use citynode_app.Proposals.Privacy.{
  applied_by, is_applicant, is_own, may_read, KeepsRows, visible_own, has_key_lem,
}

All-take {ℓ κ} : {A : Type ℓ} (P : A → Type κ) (n : ℕ) (xs : List A) → All P xs → All P (take n xs)
All-take P zero xs h = tt
All-take P (suc n) [] h = tt
All-take P (suc n) (x ∷ xs) h = (h.0, All-take P n xs h.1)

All-drop {ℓ κ} : {A : Type ℓ} (P : A → Type κ) (n : ℕ) (xs : List A) → All P xs → All P (drop n xs)
All-drop P zero xs h = h
All-drop P (suc n) [] h = tt
All-drop P (suc n) (x ∷ xs) h = All-drop P n xs h.1

abbrev AllPass : (Row → Bool) → List Row → Type 0
AllPass q rows = All (λ r. q r ≡ true) rows

AllPass-any :
    (q : Row → Bool) (rows : List Row) → any (λ r. not (q r)) rows ≡ false → AllPass q rows
AllPass-any q [] h = tt
AllPass-any q (r ∷ rows) h = (ground arith, AllPass-any q rows (ground arith))

any-AllPass :
    (q : Row → Bool) (rows : List Row) → AllPass q rows → any (λ r. not (q r)) rows ≡ false
any-AllPass q [] h = refl
any-AllPass q (r ∷ rows) h = rw (h.0) (any-AllPass q rows h.1)

-- An order that keeps the rows keeps what holds of all.
ordered :
    (order : List Row → List Row) (q : Row → Bool) (rows : List Row)
    → KeepsRows order
    → AllPass q rows
    → AllPass q (order rows)
ordered order q rows keeps h =
    AllPass-any q (order rows) (keeps (λ r. not (q r)) rows ∙ any-AllPass q rows h)

AllPass-filter :
    (p q : Row → Bool) (rows : List Row)
    → All (λ r. p r ≡ true → q r ≡ true) rows
    → AllPass q (filter p rows)
AllPass-filter p q [] h = tt
AllPass-filter p q (r ∷ rows) h = elim (Bool-cases (p r)) [
  | inl passed ↦ rw passed (h.0 passed, AllPass-filter p q rows h.1)
  | inr stopped ↦ rw stopped (AllPass-filter p q rows h.1)
]

abbrev IsStoredIn : List Row → Row → Type 0
IsStoredIn rows r = any (applied_by r.created_by r.plugin_id r.entity_id) rows ≡ true

IsStoredIn-cons :
    (x : Row) (all rows : List Row) → All (IsStoredIn all) rows → All (IsStoredIn (x ∷ all)) rows
IsStoredIn-cons x all [] h = tt
IsStoredIn-cons x all (r ∷ rows) h = (ground (arith, h.0), IsStoredIn-cons x all rows h.1)

rows_stored : (rows : List Row) → All (IsStoredIn rows) rows
rows_stored [] = tt
rows_stored (r ∷ rows) = (
  rw (eq_refl r.plugin_id, eq_refl r.entity_id, eq_refl r.created_by),
  IsStoredIn-cons r rows rows (rows_stored rows),
)

own_applicant :
    (viewer : Option String) (rows : List Row) (r : Row)
    → is_own viewer r ≡ true
    → IsStoredIn rows r
    → is_applicant viewer rows r.plugin_id r.entity_id ≡ true
own_applicant none rows r h stored = cc
own_applicant (some viewer) rows r h stored =
    subst (λ v. any (applied_by v r.plugin_id r.entity_id) rows ≡ true)
      ((eq_iff r.created_by viewer).0 h) stored

-- A row that the condition on private plugins lets through is one that the caller may read.
visible-may_read :
    (private_plugin_ids : List String) (s : Session) (input : ListInput) (rows : List Row) (r : Row)
    → has_admin_role s.user ≡ false
    → IsStoredIn rows r
    → visible (scoped private_plugin_ids s input) r ≡ true
    → may_read private_plugin_ids rows s r.plugin_id r.entity_id ≡ true
unfolding may_read scoped
visible-may_read private_plugin_ids s input rows r admin stored h =
    elim (Bool-cases (any (λ p. p == r.plugin_id) private_plugin_ids)) [
      | inr open_to ↦ rw open_to
      | inl private ↦
          rw (private, admin)
            (own_applicant (nonempty (viewer_id s)) rows r
              (sym (visible_own (scoped private_plugin_ids s input) r admin private) ∙ h) stored)
    ]

where_clause-visible :
    (ilike : String → Row → Bool) (input : ProposalFilter) (now : ℕ) (r : Row)
    → where_clause ilike input now r ≡ true
    → visible input r ≡ true
unfolding where_clause
where_clause-visible ilike input now r h = ground arith

-- What is shown of a proposal that the caller may read.
pub record IsHidden (private_plugin_ids : List String) (db : Db) (s : Session) (p : Proposal)
    : Type 0 where
  pub payload : p.row.payload ≡ null
  pub applicant : p.row.created_by ≡ "[hidden]"
  pub readable : may_read private_plugin_ids db.proposals s p.row.plugin_id p.row.entity_id ≡ true

-- A loaded proposal has the key that was asked for.
load_key :
    (now : ℕ) (db : Db) (plugin entity : String) (p : Proposal)
    → load_proposal now db plugin entity ≡ some p
    → (p.row.plugin_id ≡ plugin) × (p.row.entity_id ≡ entity)
unfolding load_proposal loaded_row select
load_key now db plugin entity p h = keyed db.proposals h
  where
    keyed :
        (rows : List Row)
        → loaded_row now db (find (has_key plugin entity) rows) ≡ some p
        → (p.row.plugin_id ≡ plugin) × (p.row.entity_id ≡ entity)
    keyed [] h = cc
    keyed (r ∷ rows) h = elim (Bool-cases (has_key plugin entity r)) [
      | inr other ↦ keyed rows (rw other at h)
      | inl same ↦
          let (plugin_same, entity_same) = has_key_lem r plugin entity same in
          (cc (rw same at h, plugin_same), cc (rw same at h, entity_same))
    ]

loaded-IsHidden :
    (private_plugin_ids : List String) (now : ℕ) (db : Db) (s : Session) (rows : List Row)
    → AllPass (λ r. may_read private_plugin_ids db.proposals s r.plugin_id r.entity_id) rows
    → All (IsHidden private_plugin_ids db s) (
        map hidden (present (map (λ (r : Row). load_proposal now db r.plugin_id r.entity_id) rows)))
unfolding hidden
loaded-IsHidden private_plugin_ids now db s [] h = tt
loaded-IsHidden private_plugin_ids now db s (r ∷ rows) h =
    elim (Option-cases (load_proposal now db r.plugin_id r.entity_id)) [
      | inl missing ↦ rw missing (loaded-IsHidden private_plugin_ids now db s rows h.1)
      | inr (p, loaded) ↦
          let (plugin, entity) = load_key now db r.plugin_id r.entity_id p loaded in
          rw loaded (
            record { payload = refl; applicant = refl; readable = rw (plugin, entity) (h.0) },
            loaded-IsHidden private_plugin_ids now db s rows h.1,
          )
    ]

-- Whatever page of proposals someone who is no admin asks for, over any order that keeps the rows:
-- each proposal of it comes without its payload and its applicant, and is one that the caller may
-- read, since its plugin is not private or a stored proposal of the entity is the caller's.
pub list_proposals-IsHidden :
    (private_plugin_ids : List String) (ilike : String → Row → Bool) (order : List Row → List Row)
    (now : ℕ) (db : Db) (s : Session) (input : ListInput) (limit cursor : Option ℕ)
    → KeepsRows order
    → has_admin_role s.user ≡ false
    → All
        (IsHidden private_plugin_ids db s)
        (list_proposals private_plugin_ids ilike order now db s input limit cursor).items
unfolding list_proposals get_proposals page
list_proposals-IsHidden private_plugin_ids ilike order now db s input limit cursor keeps admin =
    unless_admin (has_admin_role s.user) _ _ admin (
      loaded-IsHidden private_plugin_ids now db s _ (
        All-take _ (page_limit limit) _ (
          All-drop _ (offset_of cursor) _ (
            ordered order _ _ keeps (
              AllPass-filter (where_clause ilike (scoped private_plugin_ids s input) now) _
                db.proposals
                (All-mono
                  (λ r stored passed.
                    visible-may_read private_plugin_ids s input db.proposals r admin stored
                      (where_clause-visible ilike (scoped private_plugin_ids s input) now r passed))
                  db.proposals (rows_stored db.proposals)))))))
  where
    unless_admin :
        (b : Bool) (all shown : Page Proposal)
        → b ≡ false
        → All (IsHidden private_plugin_ids db s) shown.items
        → All (IsHidden private_plugin_ids db s) (if b then all else shown).items
    unless_admin true all shown e h = cc
    unless_admin false all shown e h = h
