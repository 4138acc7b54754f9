-- ===== src/Proposals/StepLaws.antt =====
-- What `recordApplyStep` of services/proposals.ts keeps.
use citynode_app.Prelude.{
  String, ℕ, ◌≡◌, inl, inr, refl, Option, none, some, List, arith, Bool-cases, Option-cases, ◌==◌,
  eq_iff,
}
use citynode_app.Proposals.Types.{Row, Action, Db, Env}
use citynode_app.Proposals.Table.{by_id, select, update, insert_audit}
use citynode_app.Proposals.Keys.{KeepsId, by_id-select}
use citynode_app.Proposals.Lifecycle.{Status, status_of, advance}
use citynode_app.Proposals.Evolution.{Evolves, status_at, update-Evolves, status_at-update}
use citynode_app.Proposals.Invariant.{
  IsAudited, Advances, with_audit, with_audit-IsAudited, insert_audit_inv,
}
use citynode_app.Proposals.Steps.{
  missing, inactive, crashed, unchanged, recorded, StepInput, StepOutcome, record_step,
  record_step_lem, step_transaction, set_step, step_audit, touch,
}
use citynode_app.Proposals.System.{after_step}

module _ (set : Row → Row) (rows : List Row) (row : Row) (keeps : KeepsId set)
    (found : by_id row.id rows ≡ some row) (same : status_of (set row) ≡ status_of row) where
  -- An update that leaves the statuses of its row leaves all statuses.
  quiet_update : (j : String) → status_at j (update row.id set rows) ≡ status_at j rows
  quiet_update j =
      rw (status_at-update row.id set rows row keeps found j) (elim (Bool-cases (row.id == j)) [
        | inl hit ↦ rw (hit, ← (eq_iff row.id j).0 hit, found, same)
        | inr other ↦ rw other
      ])

touch-IsAudited :
    (now : ℕ) (db : Db) (row : Row)
    → IsAudited db
    → by_id row.id db.proposals ≡ some row
    → IsAudited (record db { proposals = update row.id (touch now) db.proposals })
      × Evolves db.proposals (update row.id (touch now) db.proposals)
unfolding touch status_of
touch-IsAudited now db row inv found =
    let ev =
      update-Evolves row.id (touch now) db.proposals row (λ r. refl) found inv.distinct
        (inr (refl, refl)) in
    let quiet = quiet_update (touch now) db.proposals row (λ r. refl) found refl in
    (
      record {
        distinct = ev.distinct;
        replayed = λ j. rw (quiet j) (inv.replayed j);
        sound = λ j. rw (quiet j) (inv.sound j);
      },
      ev,
    )

advance_step : (o : Option Status) → advance o Action.apply_step_recorded ≡ o
unfolding advance
advance_step none = refl
advance_step (some s) = refl

set_step-Advances :
    (input : StepInput) (env : Env) (db : Db) (row : Row)
    → IsAudited db
    → by_id row.id db.proposals ≡ some row
    → Advances db.proposals
        (update row.id (set_step input env.guard_at) db.proposals)
        (step_audit input env row)
unfolding set_step status_of step_audit
set_step-Advances input env db row inv found = record {
  evolves =
      update-Evolves row.id (set_step input env.guard_at) db.proposals row (λ r. refl) found
        inv.distinct (inr (refl, refl));
  statuses = λ j.
      rw
        (
          quiet_update (set_step input env.guard_at) db.proposals row (λ r. refl) found refl j,
          advance_step,
        )
        (elim (Bool-cases (row.id == j)) [ inl hit ↦ rw hit | inr other ↦ rw other ]);
  sound = rw advance_step (inv.sound row.id);
}

module _ (input : StepInput) (env : Env) (db db' : Db) (row : Row) where
  pub unchanged_inv :
      step_transaction input env db (some row) ≡ unchanged db'
      → db' ≡ record db { proposals = update row.id (touch env.guard_at) db.proposals }
  unfolding step_transaction
  unchanged_inv e = ground arith

  pub recorded_inv :
      step_transaction input env db (some row) ≡ recorded db'
      → db'
        ≡ with_audit db
            (update row.id (set_step input env.guard_at) db.proposals)
            (step_audit input env row)
  unfolding step_transaction
  recorded_inv e = elim (Option-cases (insert_audit (step_audit input env row) db.audit)) [
    | inl clash ↦ ground arith
    | inr (log, noted) ↦
        ground (arith, insert_audit_inv (step_audit input env row) db.audit log noted)
  ]

step-IsAudited :
    (input : StepInput) (env : Env) (db : Db) (row : Row)
    → IsAudited db
    → by_id row.id db.proposals ≡ some row
    → IsAudited (after_step db (step_transaction input env db (some row)))
      × Evolves db.proposals (after_step db (step_transaction input env db (some row))).proposals
step-IsAudited input env db row inv found = go (step_transaction input env db (some row)) refl
  where
    stays : Evolves db.proposals db.proposals
    stays = record { distinct = inv.distinct; newer = λ j r h. (r, h, inr (refl, refl)) }

    go :
        (o : StepOutcome)
        → step_transaction input env db (some row) ≡ o
        → IsAudited (after_step db o) × Evolves db.proposals (after_step db o).proposals
    go missing e = (inv, stays)
    go inactive e = (inv, stays)
    go crashed e = (inv, stays)
    go (unchanged db') e =
        rw (unchanged_inv input env db db' row e) (touch-IsAudited env.guard_at db row inv found)
    go (recorded db') e =
        let adv = set_step-Advances input env db row inv found in
        rw (recorded_inv input env db db' row e)
          (with_audit-IsAudited db _ (step_audit input env row) adv inv, adv.evolves)

pub records-IsAudited :
    (input : StepInput) (env : Env) (db : Db)
    → IsAudited db
    → IsAudited (after_step db (record_step input env db))
      × Evolves db.proposals (after_step db (record_step input env db)).proposals
unfolding step_transaction
records-IsAudited input env db inv =
    rw record_step_lem (elim (Option-cases (select input.plugin_id input.entity_id db.proposals)) [
      | inl missed ↦
          rw (missed, step_transaction)
            (inv, record { distinct = inv.distinct; newer = λ j r h. (r, h, inr (refl, refl)) })
      | inr (row, found) ↦ rw found (
          step-IsAudited input env db row inv
            (by_id-select _ _ db.proposals row inv.distinct found))
    ])
