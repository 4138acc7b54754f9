-- ===== src/Proposals/Races.antt =====
-- Calls of services/proposals.ts that race for one version of a proposal.
use citynode_app.Prelude.{
  String, ℕ, ◌<◌, ◌≡◌, inl, inr, refl, ap, ◌∙◌, none, some, List, arith, All-mono,
}
use citynode_app.Proposals.Types.{Row, Db, Env}
use citynode_app.Proposals.Table.{by_id, select}
use citynode_app.Proposals.Keys.{by_id-select, by_id-update_self}
use citynode_app.Proposals.Changes.{Write, Change, revision, set}
use citynode_app.Proposals.Planned.{plan-some}
use citynode_app.Proposals.Evolution.{Evolves, NotOlder}
use citynode_app.Proposals.Invariant.{revised, set-KeepsId, updated_at-set, Legal-Evolves}
use citynode_app.Proposals.Plans.{write}
use citynode_app.Proposals.Service.{committed, lost, commit, apply_target, at_version}
use citynode_app.Proposals.System.{System, Call, plan, Move, Reachable}
use citynode_app.Proposals.Reachable.{
  IsSafe, Reachable-IsSafe, Move-Evolves, Move-IsSafe, commit_inv, commit_lem, plan-Legal,
}

-- From one system to a later one.
pub data Runs (s : System) : System → Type 0 where
  here : Runs s s
  more : {t u : System} → Runs s t → Move t u → Runs s u

NotOlder-trans : (a b c : Row) → NotOlder a b → NotOlder b c → NotOlder a c
NotOlder-trans a b c (inl p) (inl q) = inl (omega arith)
NotOlder-trans a b c (inl p) (inr q) = inl (omega (arith, q.0))
NotOlder-trans a b c (inr p) (inl q) = inl (omega (arith, p.0))
NotOlder-trans a b c (inr p) (inr q) = inr (q.0 ∙ p.0, q.1 ∙ p.1)

Evolves-trans : {a b c : List Row} → Evolves a b → Evolves b c → Evolves a c
Evolves-trans p q = record {
  distinct = q.distinct;
  newer = λ j row found.
      let (mid, found', older) = p.newer j row found in
      let (last, found'', older') = q.newer j mid found' in
      (last, found'', NotOlder-trans row mid last older older');
}

Runs-IsSafe : {s t : System} → IsSafe s → Runs s t → IsSafe t
Runs-IsSafe safe here = safe
Runs-IsSafe safe (more r m) = Move-IsSafe m (Runs-IsSafe safe r)

pub Runs-Evolves : {s t : System} → IsSafe s → Runs s t → Evolves s.db.proposals t.db.proposals
Runs-Evolves safe here = record {
  distinct = safe.audited.distinct;
  newer = λ j row h. (row, h, inr (refl, refl));
}
Runs-Evolves safe (more r m) =
    Evolves-trans (Runs-Evolves safe r) (Move-Evolves m (Runs-IsSafe safe r))

version_missed :
    (rows : List Row) (i : String) (version now : ℕ) (c : Change) (row : Row)
    → by_id i rows ≡ some row
    → version < row.updated_at
    → apply_target (revision i version now c) rows ≡ none
unfolding apply_target at_version
version_missed rows i version now c row found newer = ground (arith, found)

-- A transaction whose version the row has left behind is lost.
left_behind :
    (w : Write) (db : Db) (i : String) (version now : ℕ) (c : Change) (row : Row)
    → w.target ≡ revision i version now c
    → by_id i db.proposals ≡ some row
    → version < row.updated_at
    → commit w db ≡ lost
unfolding commit
left_behind w db i version now c row t found newer =
    let missed : apply_target w.target db.proposals ≡ none =
      ap (λ x. apply_target x db.proposals) t
      ∙ version_missed db.proposals i version now c row found newer in
    rw (missed, commit)

-- Two calls have read the same version of a proposal in a reachable state, and both have planned a
-- transaction. Once one of them commits, the other is lost, whatever moves of the system come
-- between: no update is overwritten by a call that has not seen it.
pub one_writer_per_version :
    (s u : System) (c c' : Call) (env env' : Env) (plugin entity : String) (row : Row)
    (w w' : Write) (db : Db)
    → Reachable s
    → select plugin entity s.db.proposals ≡ some row
    → plan c env (some row) ≡ write w
    → plan c' env' (some row) ≡ write w'
    → commit w s.db ≡ committed db
    → Runs (record s { db = db }) u
    → commit w' u.db ≡ lost
one_writer_per_version s u c c' env env' plugin entity row w w' db r found p p' done runs =
    let safe = Reachable-IsSafe r in
    let (now, change, target, audited, planned) = plan-some c env row w p in
    let (now', change', target', audited', planned') = plan-some c' env' row w' p' in
    let stored_row = by_id-select plugin entity s.db.proposals row safe.audited.distinct found in
    let legal =
      plan-Legal c env plugin entity s.db.proposals w safe.audited.distinct (rw found p) in
    let (still, ev) = commit_lem w s.db db safe.audited legal done in
    let (rows, subs, hit, added, same) = commit_inv w s.db db done in
    let (current, updated) =
      revised row.id row.updated_at now change s.db.proposals rows row stored_row
        (rw target at hit) in
    let later =
      Runs-Evolves
        (record { audited = still; legal = All-mono (Legal-Evolves ev) s.pending safe.legal })
        runs in
    let stored : by_id row.id db.proposals ≡ some (set change now row) =
      rw (same, updated)
        (by_id-update_self row.id (set change now) s.db.proposals row (set-KeepsId change now)
          stored_row) in
    let (row', stored', older) = later.newer row.id (set change now row) stored in
    left_behind w' u.db row.id row.updated_at now' change' row' target' stored'
      (newest row row' now change planned.later older)
  where
    newest :
        (row row' : Row) (now : ℕ) (change : Change)
        → row.updated_at < now
        → NotOlder (set change now row) row'
        → row.updated_at < row'.updated_at
    newest row row' now change lt (inl newer) = omega (arith, updated_at-set change now row)
    newest row row' now change lt (inr (same, _)) =
        omega (arith, updated_at-set change now row, same)
