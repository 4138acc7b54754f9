-- ===== src/Proposals/Idempotency.antt =====
-- Idempotency keys of `propose` in services/proposals.ts.
use citynode_app.Prelude.{
  String, ℕ, ◌≡◌, ◌≢◌, ◌⊎◌, inl, inr, refl, ap, sym, ◌∙◌, Bool, true, false, Option, none, some,
  List, [], ◌∷◌, ◌++◌, arith, Bool-cases, Option-cases, eq_iff, eq_refl, any, find,
}
use citynode_app.Proposals.Rules.{next_timestamp}
use citynode_app.Proposals.Types.{Row, Submission, Db, Env, idempotency_key_reused}
use citynode_app.Proposals.Table.{
  has_key, select, insert_submission, has_idempotency_key, same_submission,
}
use citynode_app.Proposals.Keys.{
  Distinct, KeepsKeys, insert_row_inv, select-update_self, by_id-select,
}
use citynode_app.Proposals.Changes.{Write, insertion, revision, set, resubmit}
use citynode_app.Proposals.Plans.{ProposeInput, Decision, refuse, unchanged, write}
use citynode_app.Proposals.Propose.{
  prior_submission, same_request, plan_propose, propose_write, propose_refusal, new_row,
  new_submission,
}
use citynode_app.Proposals.Reachable.{commit_inv}
use citynode_app.Proposals.Invariant.{revised}
use citynode_app.Proposals.Service.{
  Proposal, Commit, committed, lost, crashed, commit, apply_target, add_submission, settle, loaded,
  failed, Answer, perform, load_proposal, loaded_row, propose, propose_anew, propose_again,
  propose_checked,
}

-- A loaded reply comes from an unchanged decision or from a transaction that committed.
pub perform_inv :
    (plugin entity : String) (env : Env) (db db' : Db) (d : Decision) (p : Option Proposal)
    → perform plugin entity env db d ≡ (loaded p, db')
    → ((d ≡ unchanged) × (db' ≡ db)) ⊎ ((w : Write) × (d ≡ write w) × (commit w db ≡ committed db'))
unfolding perform settle
perform_inv plugin entity env db db' (refuse e) p h = cc (ap (λ (a : Answer). a.0) h)
perform_inv plugin entity env db db' unchanged p h = inl (refl, sym (ap (λ (a : Answer). a.1) h))
perform_inv plugin entity env db db' (write w) p h = inr (w, refl, go (commit w db) h)
  where
    go : (r : Commit) → settle plugin entity env db r ≡ (loaded p, db') → r ≡ committed db'
    go (committed d) h' = ap committed (ap (λ (a : Answer). a.1) h')
    go lost h' = cc (ap (λ (a : Answer). a.0) h')
    go crashed h' = cc (ap (λ (a : Answer). a.0) h')

find-append_fresh :
    (p : Submission → Bool) (subs : List Submission) (s : Submission)
    → find p subs ≡ none
    → p s ≡ true
    → find p (subs ++ s ∷ []) ≡ some s
find-append_fresh p [] s e h = rw h
find-append_fresh p (x ∷ subs) s e h = ground (arith, find-append_fresh p subs s)

select-append :
    (plugin entity : String) (rows : List Row) (row : Row)
    → row.plugin_id ≡ plugin
    → row.entity_id ≡ entity
    → (r : Row) × (select plugin entity (rows ++ row ∷ []) ≡ some r)
unfolding select
select-append plugin entity [] row p e =
    (row, ground (arith, eq_iff row.plugin_id plugin, eq_iff row.entity_id entity))
select-append plugin entity (x ∷ rows) row p e = elim (Bool-cases (has_key plugin entity x)) [
  | inl hit ↦ (x, rw hit)
  | inr miss ↦ let (r, h) = select-append plugin entity rows row p e in (r, rw miss h)
]

resubmit-KeepsKeys : (payload : _) (now : ℕ) → KeepsKeys (set (resubmit payload) now)
unfolding set
resubmit-KeepsKeys payload now = record {
  id = λ r. refl;
  plugin_id = λ r. refl;
  entity_id = λ r. refl;
}

-- What the plan of `propose` writes beside its proposal.
record IsOf (input : ProposeInput) (s : Submission) : Type 0 where
  plugin_id : s.plugin_id ≡ input.plugin_id
  idempotency_key : s.idempotency_key ≡ input.idempotency_key
  same : same_request input s ≡ true

new_submission-IsOf :
    (input : ProposeInput) (env : Env) (proposal : String) (now : ℕ)
    → IsOf input (new_submission input env proposal now)
unfolding new_submission
new_submission-IsOf input env proposal now = record {
  plugin_id = refl;
  idempotency_key = refl;
  same = rw (eq_refl input.entity_id) (eq_refl input.actor_id);
}

planned_submission :
    (input : ProposeInput) (env : Env) (o : Option Row) (w : Write)
    → plan_propose input env o ≡ write w
    → (s : Submission) × (w.submission ≡ some s) × IsOf input s
unfolding plan_propose propose_write
planned_submission input env none w e =
    let i : String = (new_row input env).id in
    let now : ℕ = next_timestamp env.write_at none in
    (new_submission input env i now, ground arith, new_submission-IsOf input env i now)
planned_submission input env (some row) w e = elim (Option-cases (propose_refusal input row)) [
  | inl free ↦
      let now : ℕ = next_timestamp env.write_at (some row.updated_at) in
      (new_submission input env row.id now, ground arith, new_submission-IsOf input env row.id now)
  | inr (err, refused) ↦ ground arith
]

planned_target :
    (input : ProposeInput) (env : Env) (row : Row) (w : Write)
    → plan_propose input env (some row) ≡ write w
    → (now : ℕ) × (w.target ≡ revision row.id row.updated_at now (resubmit input.payload))
unfolding plan_propose propose_write
planned_target input env row w e = (next_timestamp env.write_at (some row.updated_at), ground arith)

planned_insertion :
    (input : ProposeInput) (env : Env) (w : Write)
    → plan_propose input env none ≡ write w
    → w.target ≡ insertion (new_row input env)
unfolding plan_propose propose_write
planned_insertion input env w e = ground arith

new_row-keys :
    (input : ProposeInput) (env : Env)
    → ((new_row input env).plugin_id ≡ input.plugin_id)
      × ((new_row input env).entity_id ≡ input.entity_id)
unfolding new_row
new_row-keys input env = (refl, refl)

stored_after :
    (input : ProposeInput) (env : Env) (rows rows' : List Row) (w : Write)
    → Distinct rows
    → plan_propose input env (select input.plugin_id input.entity_id rows) ≡ write w
    → apply_target w.target rows ≡ some rows'
    → (r : Row) × (select input.plugin_id input.entity_id rows' ≡ some r)
unfolding apply_target
stored_after input env rows rows' w d e hit =
    elim (Option-cases (select input.plugin_id input.entity_id rows)) [
      | inl missing ↦
          let target = planned_insertion input env w (rw missing at e) in
          let (free, same) = insert_row_inv (new_row input env) rows rows' (rw target at hit) in
          let (plugin, entity) = new_row-keys input env in
          let (r, stored) =
            select-append input.plugin_id input.entity_id rows (new_row input env) plugin entity in
          (r, rw same stored)
      | inr (row, found) ↦
          let (now, target) = planned_target input env row w (rw found at e) in
          let (current, same) =
            revised row.id row.updated_at now (resubmit input.payload) rows rows' row
              (by_id-select _ _ rows row d found) (rw target at hit) in
          (
            set (resubmit input.payload) now row,
            rw same
                (select-update_self _ _ _ rows row (resubmit-KeepsKeys input.payload now) d found),
          )
    ]

plan_propose-ne-unchanged :
    (input : ProposeInput) (env : Env) (o : Option Row) → plan_propose input env o ≢ unchanged
unfolding plan_propose
plan_propose-ne-unchanged input env none e = cc
plan_propose-ne-unchanged input env (some row) e = ground arith

-- What a committed `propose` leaves: its submission is the last, and its proposal is stored.
anew_inv :
    (env : Env) (db db' : Db) (input : ProposeInput) (p : Option Proposal)
    → Distinct db.proposals
    → propose_anew env db input ≡ (loaded p, db')
    → (s : Submission) × (row : Row) × (insert_submission s db.submissions ≡ some db'.submissions)
      × (s.plugin_id ≡ input.plugin_id)
      × (s.idempotency_key ≡ input.idempotency_key)
      × (same_request input s ≡ true)
      × (select input.plugin_id input.entity_id db'.proposals ≡ some row)
unfolding propose_anew add_submission
anew_inv env db db' input p d h =
    elim (perform_inv input.plugin_id input.entity_id env db db' _ p h) [
      | inl (u, _) ↦ absurd (
          plan_propose-ne-unchanged input env (select input.plugin_id input.entity_id db.proposals)
            u)
      | inr (w, planned, done) ↦
          let (rows, subs, hit, added, same) = commit_inv w db db' done in
          let (s, submitted, of) = planned_submission input env _ w planned in
          let (row, stored) = stored_after input env db.proposals rows w d planned hit in
          (
            s,
            row,
            rw same (rw submitted at added),
            of.plugin_id,
            of.idempotency_key,
            of.same,
            rw same stored,
          )
    ]

insert_submission_inv :
    (s : Submission) (subs subs' : List Submission)
    → insert_submission s subs ≡ some subs'
    → subs' ≡ subs ++ s ∷ []
unfolding insert_submission
insert_submission_inv s subs subs' e = ground arith

has_key_of :
    (input : ProposeInput) (s : Submission) (key : String)
    → input.idempotency_key ≡ some key
    → s.plugin_id ≡ input.plugin_id
    → s.idempotency_key ≡ input.idempotency_key
    → has_idempotency_key input.plugin_id key s ≡ true
has_key_of input s key k p e = ground (arith, eq_iff s.plugin_id input.plugin_id, eq_refl key)

-- Where the key was used by the same request and the proposal is stored, `propose` returns it.
replayed :
    (env : Env) (db : Db) (input : ProposeInput) (s : Submission) (row : Row)
    → prior_submission input db.submissions ≡ some s
    → same_request input s ≡ true
    → select input.plugin_id input.entity_id db.proposals ≡ some row
    → propose env db input
      ≡ (loaded (load_proposal env.guard_at db input.plugin_id input.entity_id), db)
unfolding propose propose_checked propose_again load_proposal loaded_row
replayed env db input s row prior same stored = rw (prior, same, stored)

propose-none :
    (env : Env) (db : Db) (input : ProposeInput)
    → prior_submission input db.submissions ≡ none
    → propose env db input ≡ propose_anew env db input
unfolding propose propose_checked
propose-none env db input prior = rw prior

-- The key was used, and the proposal is not stored.
propose_orphan :
    (env : Env) (db : Db) (input : ProposeInput) (s : Submission)
    → prior_submission input db.submissions ≡ some s
    → same_request input s ≡ true
    → select input.plugin_id input.entity_id db.proposals ≡ none
    → propose env db input ≡ propose_anew env db input
unfolding propose propose_checked propose_again load_proposal loaded_row
propose_orphan env db input s prior same missing = rw (prior, same, missing)

propose_other :
    (env : Env) (db : Db) (input : ProposeInput) (s : Submission)
    → prior_submission input db.submissions ≡ some s
    → same_request input s ≡ false
    → propose env db input ≡ (failed idempotency_key_reused, db)
unfolding propose propose_checked
propose_other env db input s prior other = rw (prior, other)

prior_submission_lem :
    (input : ProposeInput) (key : String) (subs : List Submission)
    → input.idempotency_key ≡ some key
    → key ≢ ""
    → prior_submission input subs ≡ find (has_idempotency_key input.plugin_id key) subs
unfolding prior_submission
prior_submission_lem input key subs k n = ground (arith, eq_iff key "")

-- The check does not look for an empty key.
unchecked :
    (input : ProposeInput) (subs : List Submission)
    → input.idempotency_key ≡ some ""
    → prior_submission input subs ≡ none
unfolding prior_submission
unchecked input subs k = ground (arith, eq_refl "")

-- The unique index refuses a second submission under a key of its plugin.
pub key_taken :
    (new s : Submission) (plugin key : String) (subs : List Submission)
    → new.plugin_id ≡ plugin
    → new.idempotency_key ≡ some key
    → find (has_idempotency_key plugin key) subs ≡ some s
    → insert_submission new subs ≡ none
unfolding insert_submission
key_taken new s plugin key subs p k e = rw (taken subs e)
  where
    taken :
        (subs : List Submission)
        → find (has_idempotency_key plugin key) subs ≡ some s
        → any (same_submission new) subs ≡ true
    taken [] h = cc
    taken (x ∷ xs) h = ground (arith, p, k, taken xs)

-- A request that `propose` has answered with the stored proposal, under an idempotency key that is
-- not empty, can be sent again at once: it is answered with the proposal as it is stored, and
-- changes nothing. The primary keys of the proposals are distinct.
pub propose_idempotent :
    (env env' : Env) (db db' : Db) (input : ProposeInput) (key : String) (p : Option Proposal)
    → Distinct db.proposals
    → input.idempotency_key ≡ some key
    → key ≢ ""
    → propose env db input ≡ (loaded p, db')
    → propose env' db' input
      ≡ (loaded (load_proposal env'.guard_at db' input.plugin_id input.entity_id), db')
propose_idempotent env env' db db' input key p d k nonempty h =
    elim (Option-cases (prior_submission input db.submissions)) [
      | inl fresh ↦
          let (s, row, added, plugin, keyed, same, stored) =
            anew_inv env db db' input p d (sym (propose-none env db input fresh) ∙ h) in
          let now_prior : prior_submission input db'.submissions ≡ some s =
            prior_submission_lem input key db'.submissions k nonempty
            ∙ ap (find (has_idempotency_key input.plugin_id key))
                (insert_submission_inv s db.submissions db'.submissions added)
            ∙ find-append_fresh (has_idempotency_key input.plugin_id key) db.submissions s
                (sym (prior_submission_lem input key db.submissions k nonempty) ∙ fresh)
                (has_key_of input s key k plugin keyed) in
          replayed env' db' input s row now_prior same stored
      | inr (s, prior) ↦ elim (Bool-cases (same_request input s)) [
        | inr other ↦
            cc (ap (λ (a : Answer). a.0) (sym (propose_other env db input s prior other) ∙ h))
        | inl same ↦ elim (Option-cases (select input.plugin_id input.entity_id db.proposals)) [
          | inl missing ↦
              let (s', row, added, plugin, keyed, same', stored) =
                anew_inv env db db' input p d
                  (sym (propose_orphan env db input s prior same missing) ∙ h) in
              cc (
                added,
                key_taken s' s input.plugin_id key db.submissions plugin (keyed ∙ k)
                    (sym (prior_submission_lem input key db.submissions k nonempty) ∙ prior),
              )
          | inr (row, stored) ↦
              let unmoved : db' ≡ db = sym (
                ap (λ (a : Answer). a.1)
                  (sym (replayed env db input s row prior same stored) ∙ h)) in
              rw unmoved (replayed env' db input s row prior same stored)
        ]
      ]
    ]

-- While the plugin has a submission under the empty key, `propose` under the empty key never
-- replies with a proposal, whatever its entity and its actor. The primary keys of the proposals are
-- distinct.
pub empty_key_refused :
    (env : Env) (db : Db) (input : ProposeInput) (s : Submission) (p : Option Proposal) (db' : Db)
    → Distinct db.proposals
    → input.idempotency_key ≡ some ""
    → find (has_idempotency_key input.plugin_id "") db.submissions ≡ some s
    → propose env db input ≢ (loaded p, db')
empty_key_refused env db input s p db' d k used h =
    let (s', row, added, plugin, keyed, same, stored) =
      anew_inv env db db' input p d
        (sym (propose-none env db input (unchecked input db.submissions k)) ∙ h) in
    cc (added, key_taken s' s input.plugin_id "" db.submissions plugin (keyed ∙ k) used)
