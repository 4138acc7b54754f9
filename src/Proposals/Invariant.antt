-- ===== src/Proposals/Invariant.antt =====
-- What holds of services/proposals.ts however its calls interleave.
use citynode_app.Prelude.{
  ℕ, String, ◌≡◌, inl, inr, refl, sym, ◌∙◌, Option, none, some, List, [], ◌∷◌, ◌++◌, arith, ◌==◌,
  if◌then◌else◌, eq_iff, Bool-cases,
}
use citynode_app.Proposals.Types.{Row, AuditEntry, Db}
use citynode_app.Proposals.Table.{by_id, update, insert_audit, insert_row}
use citynode_app.Proposals.Keys.{Distinct, KeepsId, insert_row_inv}
use citynode_app.Proposals.Changes.{Change, set, revision, Write}
use citynode_app.Proposals.Lifecycle.{
  Status, status_of, IsConsistent, allowed-IsConsistent, replay, trail, advance, replay-append,
  trail-append, status_of-set,
}
use citynode_app.Proposals.Planned.{IsFirst, IsPlanned, Legal, first, revises}
use citynode_app.Proposals.Evolution.{
  Evolves, NotOlder, status_at, update-Evolves, status_at-update, append-Evolves, status_at-append,
}
use citynode_app.Proposals.Service.{apply_target}

abbrev pub Sound : Option Status → Type 0
Sound none = Unit
Sound (some s) = IsConsistent s

-- The tables: primary keys differ, the audit log of each proposal replays to its status, and the
-- status is one of the eight.
pub record IsAudited (db : Db) : Type 0 where
  pub distinct : Distinct db.proposals
  pub replayed : (i : String) → status_at i db.proposals ≡ replay (trail i db.audit)
  pub sound : (i : String) → Sound (status_at i db.proposals)

IsPlanned-NotOlder :
    {row row' : Row} {version now : ℕ} {c : Change} {e : AuditEntry}
    → IsPlanned row version now c e
    → NotOlder row row'
    → IsPlanned row' version now c e
IsPlanned-NotOlder p (inl newer) = record {
  seen = omega (arith, p.seen);
  later = p.later;
  permitted = λ h. absurd (omega (arith, p.seen));
  action = p.action;
}
IsPlanned-NotOlder p (inr (same, status)) = record {
  seen = omega (arith, p.seen);
  later = p.later;
  permitted = λ h. rw status (p.permitted (sym same ∙ h));
  action = p.action;
}

-- A planned transaction stays legal while the rows evolve.
pub Legal-Evolves :
    {rows rows' : List Row} → Evolves rows rows' → (w : Write) → Legal rows w → Legal rows' w
Legal-Evolves ev w (first row t f) = first row t f
Legal-Evolves ev w (revises i version now c row t found audited p) =
    let (row', found', older) = ev.newer i row found in
    revises i version now c row' t found' audited (IsPlanned-NotOlder p older)

-- The rows after a transaction that writes the audit entry `e`.
pub record Advances (rows rows' : List Row) (e : AuditEntry) : Type 0 where
  pub evolves : Evolves rows rows'
  pub statuses :
      (j : String)
      → status_at j rows'
        ≡ (if e.proposal_id == j then advance (status_at j rows) e.action else status_at j rows)
  pub sound : Sound (advance (status_at e.proposal_id rows) e.action)

abbrev pub with_audit : Db → List Row → AuditEntry → Db
with_audit db rows e = record db { proposals = rows; audit = db.audit ++ e ∷ [] }

module _ (db : Db) (rows : List Row) (e : AuditEntry) (adv : Advances db.proposals rows e)
    (inv : IsAudited db) where
  replayed_after : (j : String) → status_at j rows ≡ replay (trail j (db.audit ++ e ∷ []))
  replayed_after j = elim (Bool-cases (e.proposal_id == j)) [
    | inl same ↦ rw (adv.statuses j, trail-append j db.audit e, same, replay-append, inv.replayed j)
    | inr other ↦ rw (adv.statuses j, trail-append j db.audit e, other) (inv.replayed j)
  ]

  Sound-after : (j : String) → Sound (status_at j rows)
  Sound-after j = elim (Bool-cases (e.proposal_id == j)) [
    | inl same ↦ rw (adv.statuses j, same, ← (eq_iff e.proposal_id j).0 same) adv.sound
    | inr other ↦ rw (adv.statuses j, other) (inv.sound j)
  ]

  pub with_audit-IsAudited : IsAudited (with_audit db rows e)
  with_audit-IsAudited = record {
    distinct = adv.evolves.distinct;
    replayed = replayed_after;
    sound = Sound-after;
  }

pub set-KeepsId : (c : Change) (now : ℕ) → KeepsId (set c now)
unfolding set
set-KeepsId (Change.approve _) now row = refl
set-KeepsId _ now row = refl

pub updated_at-set : (c : Change) (now : ℕ) (row : Row) → (set c now row).updated_at ≡ now
unfolding set
updated_at-set (Change.approve _) now row = refl
updated_at-set _ now row = refl

insertion-Advances :
    (row : Row) (rows rows' : List Row) (e : AuditEntry)
    → Distinct rows
    → IsFirst row e
    → insert_row row rows ≡ some rows'
    → Advances rows rows' e
unfolding advance
insertion-Advances row rows rows' e d f ins =
    let (free, same) = insert_row_inv row rows rows' ins in
    rw (same, f.audited, f.action)
      (record {
        evolves = append-Evolves row rows free d;
        statuses = λ j. elim (Bool-cases (row.id == j)) [
          | inl hit ↦
              rw (status_at-append row rows free j, hit, ← (eq_iff row.id j).0 hit, free, f.status)
          | inr other ↦ rw (status_at-append row rows free j, other)
        ];
        sound = rw free refl;
      })

revision-Advances :
    (i : String) (version now : ℕ) (c : Change) (row : Row) (rows : List Row) (e : AuditEntry)
    → Distinct rows
    → by_id i rows ≡ some row
    → row.updated_at ≡ version
    → e.proposal_id ≡ i
    → IsPlanned row version now c e
    → IsConsistent (status_of row)
    → Advances rows (update i (set c now) rows) e
unfolding advance
revision-Advances i version now c row rows e d found current audited p k = record {
  evolves =
      update-Evolves i (set c now) rows row (set-KeepsId c now) found d
        (inl (omega (arith, updated_at-set c now row, p.later)));
  statuses = λ j.
      rw (audited, p.action, status_at-update i (set c now) rows row (set-KeepsId c now) found j)
        (elim (Bool-cases (i == j)) [
          | inl hit ↦ rw (hit, ← (eq_iff i j).0 hit, found, status_of-set c now row)
          | inr other ↦ rw other
        ]);
  sound =
      rw (audited, p.action, found)
        (allowed-IsConsistent c (status_of row) k (p.permitted current));
}

-- The revision that `apply_target` makes is of the version that the call read.
pub revised :
    (i : String) (version now : ℕ) (c : Change) (rows rows' : List Row) (row : Row)
    → by_id i rows ≡ some row
    → apply_target (revision i version now c) rows ≡ some rows'
    → (row.updated_at ≡ version) × (rows' ≡ update i (set c now) rows)
unfolding apply_target
revised i version now c rows rows' row found e = ground (arith, found)

pub target-Advances :
    (db : Db) (w : Write) (rows : List Row)
    → IsAudited db
    → Legal db.proposals w
    → apply_target w.target db.proposals ≡ some rows
    → Advances db.proposals rows w.audit
unfolding apply_target
target-Advances db w rows inv (first row t f) e =
    insertion-Advances row db.proposals rows w.audit inv.distinct f (rw t at e)
target-Advances db w rows inv (revises i version now c row t found audited p) e =
    let (current, same) = revised i version now c db.proposals rows row found (rw t at e) in
    let k : Sound (status_at i db.proposals) = inv.sound i in
    rw same (
      revision-Advances i version now c row db.proposals w.audit inv.distinct found current audited
        p (rw found at k))

pub insert_audit_inv :
    (e : AuditEntry) (log log' : List AuditEntry)
    → insert_audit e log ≡ some log'
    → log' ≡ log ++ e ∷ []
unfolding insert_audit
insert_audit_inv e log log' h = ground arith
