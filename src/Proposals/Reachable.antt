-- ===== src/Proposals/Reachable.antt =====
-- Every state that interleaved calls of services/proposals.ts can reach from the empty tables.
use mathlib.Core.Option
use citynode_app.Prelude.{
  String, ◌≡◌, inl, inr, refl, some, List, [], ◌∷◌, ◌++◌, arith, Option-cases, All, All-mono,
  All-remove,
}
use citynode_app.Proposals.Types.{Row, Submission, Db, Env}
use citynode_app.Proposals.Table.{by_id, select, insert_audit}
use citynode_app.Proposals.Keys.{Distinct, by_id-select}
use citynode_app.Proposals.Changes.{Write}
use citynode_app.Proposals.Lifecycle.{status_of, IsConsistent, replay, trail}
use citynode_app.Proposals.Planned.{Legal, first, revises, plan-none, plan-some}
use citynode_app.Proposals.Evolution.{Evolves, status_at}
use citynode_app.Proposals.Invariant.{
  Sound, IsAudited, Legal-Evolves, with_audit-IsAudited, target-Advances, insert_audit_inv,
}
use citynode_app.Proposals.Service.{
  Commit, committed, lost, crashed, commit, apply_target, add_submission,
}
use citynode_app.Proposals.Plans.{write}
use citynode_app.Proposals.StepLaws.{records-IsAudited}
use citynode_app.Proposals.System.{
  System, Move, reads, commits, records, Reachable, start, next, Call, plan, after_commit, empty,
}

pub record IsSafe (s : System) : Type 0 where
  pub audited : IsAudited s.db
  pub legal : All (Legal s.db.proposals) s.pending

-- A transaction that commits has written all its three parts.
pub commit_inv :
    (w : Write) (db db' : Db)
    → commit w db ≡ committed db'
    → (rows : List Row) × (subs : List Submission) × (apply_target w.target db.proposals
        ≡ some rows)
      × (add_submission w.submission db.submissions ≡ some subs)
      × (db' ≡ record { proposals = rows; submissions = subs; audit = db.audit ++ w.audit ∷ [] })
unfolding commit
commit_inv w db db' e = elim (Option-cases (apply_target w.target db.proposals)) [
  | inl missed ↦ cc (rw (missed, commit) at e)
  | inr (rows, hit) ↦ elim (Option-cases (add_submission w.submission db.submissions)) [
    | inl clash ↦ cc (rw (hit, clash, commit) at e)
    | inr (subs, added) ↦ elim (Option-cases (insert_audit w.audit db.audit)) [
      | inl clash ↦ cc (rw (hit, added, clash, commit) at e)
      | inr (log, noted) ↦
          (rows, subs, hit, added, ground (arith, insert_audit_inv w.audit db.audit log noted))
    ]
  ]
]

pub commit_lem :
    (w : Write) (db db' : Db)
    → IsAudited db
    → Legal db.proposals w
    → commit w db ≡ committed db'
    → IsAudited db' × Evolves db.proposals db'.proposals
commit_lem w db db' inv legal e =
    let (rows, subs, hit, added, same) = commit_inv w db db' e in
    let adv = target-Advances db w rows inv legal hit in
    let audited = with_audit-IsAudited db rows w.audit adv inv in
    rw same (
      record { distinct = audited.distinct; replayed = audited.replayed; sound = audited.sound },
      adv.evolves,
    )

-- The tables after a transaction, whether or not it commits.
commits-IsAudited :
    (w : Write) (db : Db)
    → IsAudited db
    → Legal db.proposals w
    → IsAudited (after_commit db (commit w db))
      × Evolves db.proposals (after_commit db (commit w db)).proposals
commits-IsAudited w db inv legal = go (commit w db) refl
  where
    stays : Evolves db.proposals db.proposals
    stays = record { distinct = inv.distinct; newer = λ j r h. (r, h, inr (refl, refl)) }

    go :
        (r : Commit)
        → commit w db ≡ r
        → IsAudited (after_commit db r) × Evolves db.proposals (after_commit db r).proposals
    go (committed db') e = commit_lem w db db' inv legal e
    go lost e = (inv, stays)
    go crashed e = (inv, stays)

-- A transaction that a call plans from the current tables is legal.
pub plan-Legal :
    (c : Call) (env : Env) (plugin entity : String) (rows : List Row) (w : Write)
    → Distinct rows
    → plan c env (select plugin entity rows) ≡ write w
    → Legal rows w
plan-Legal c env plugin entity rows w d e = elim (Option-cases (select plugin entity rows)) [
  | inl missing ↦ let (row, target, f) = plan-none c env w (rw missing at e) in first row target f
  | inr (row, found) ↦
      let (now, change, target, audited, p) = plan-some c env row w (rw found at e) in
      revises row.id row.updated_at now change row target
        (by_id-select plugin entity rows row d found) audited p
]

pub Move-IsSafe : {s t : System} → Move s t → IsSafe s → IsSafe t
Move-IsSafe {s} (reads c env plugin entity w e same) safe = rw same (record {
  audited = safe.audited;
  legal = (plan-Legal c env plugin entity s.db.proposals w safe.audited.distinct e, safe.legal);
})
Move-IsSafe {s} (commits before w later p same) safe =
    let (legal, others) = All-remove (Legal s.db.proposals) before w later (rw p at safe.legal) in
    let (audited, ev) = commits-IsAudited w s.db safe.audited legal in
    rw same
      (record { audited = audited; legal = All-mono (Legal-Evolves ev) (before ++ later) others })
Move-IsSafe {s} (records input env same) safe =
    let (audited, ev) = records-IsAudited input env s.db safe.audited in
    rw same (record { audited = audited; legal = All-mono (Legal-Evolves ev) s.pending safe.legal })

pub Move-Evolves : {s t : System} → Move s t → IsSafe s → Evolves s.db.proposals t.db.proposals
Move-Evolves (reads c env plugin entity w e same) safe =
    rw same
      (record { distinct = safe.audited.distinct; newer = λ j row h. (row, h, inr (refl, refl)) })
Move-Evolves {s} (commits before w later p same) safe =
    let (legal, others) = All-remove (Legal s.db.proposals) before w later (rw p at safe.legal) in
    rw same (commits-IsAudited w s.db safe.audited legal).1
Move-Evolves {s} (records input env same) safe =
    rw same (records-IsAudited input env s.db safe.audited).1

empty-IsSafe : IsSafe empty
unfolding by_id trail replay
empty-IsSafe = record {
  audited = record { distinct = tt; replayed = λ i. refl; sound = λ i. tt };
  legal = tt;
}

pub Reachable-IsSafe : {s : System} → Reachable s → IsSafe s
Reachable-IsSafe start = empty-IsSafe
Reachable-IsSafe (next r m) = Move-IsSafe m (Reachable-IsSafe r)

-- However calls interleave, replaying the audit log of a proposal, from its first entry to its
-- last, gives the three statuses that its row holds; and a proposal with no row has no entries that
-- replay to a status.
pub trail-status :
    (s : System) (i : String)
    → Reachable s
    → Option.map status_of (by_id i s.db.proposals) ≡ replay (trail i s.db.audit)
trail-status s i r = (Reachable-IsSafe r).audited.replayed i

-- However calls interleave, the three statuses of a stored proposal are one of the eight
-- combinations of `fits`.
pub status-IsConsistent :
    (s : System) (i : String) (row : Row)
    → Reachable s
    → by_id i s.db.proposals ≡ some row
    → IsConsistent (status_of row)
status-IsConsistent s i row r found =
    let k : Sound (status_at i s.db.proposals) = (Reachable-IsSafe r).audited.sound i in
    rw found at k
