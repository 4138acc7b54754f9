-- ===== src/Proposals/Evolution.antt =====
-- How the rows of the proposals table evolve when one transaction runs.
use mathlib.Core.Option
use citynode_app.Prelude.{
  ◌<◌, String, ◌≡◌, ◌⊎◌, inl, inr, refl, ap, Option, none, some, List, [], ◌∷◌, ◌++◌, arith, ◌==◌,
  if◌then◌else◌, eq_iff, Bool-cases,
}
use citynode_app.Proposals.Types.{Row}
use citynode_app.Proposals.Table.{by_id, update}
use citynode_app.Proposals.Keys.{
  Distinct, KeepsId, by_id-update_self, by_id-update_ne, update-Distinct, by_id-append,
  append-Distinct,
}
use citynode_app.Proposals.Lifecycle.{Status, status_of}

-- A later state of a row: a greater version, or the same version in the same status.
abbrev pub NotOlder : Row → Row → Type 0
NotOlder row row' =
    (row.updated_at < row'.updated_at)
    ⊎ ((row'.updated_at ≡ row.updated_at) × (status_of row' ≡ status_of row))

-- No row is lost or goes back.
pub record Evolves (rows rows' : List Row) : Type 0 where
  pub distinct : Distinct rows'
  pub newer :
      (j : String) (row : Row)
      → by_id j rows ≡ some row
      → (row' : Row) × (by_id j rows' ≡ some row') × NotOlder row row'

abbrev pub status_at : String → List Row → Option Status
status_at i rows = Option.map status_of (by_id i rows)

module _ (i : String) (set : Row → Row) (rows : List Row) (row : Row) (keeps : KeepsId set)
    (found : by_id i rows ≡ some row) where
  pub update-Evolves : Distinct rows → NotOlder row (set row) → Evolves rows (update i set rows)
  update-Evolves d n = record {
    distinct = update-Distinct i set rows keeps d;
    newer = λ j r e. elim (Bool-cases (i == j)) [
      | inl same ↦
          let ij : i ≡ j = (eq_iff i j).0 same in
          (set row, rw (← ij) (by_id-update_self i set rows row keeps found), ground arith)
      | inr other ↦ (
        r,
        rw (by_id-update_ne i j set rows keeps (λ p. cc ((eq_iff i j).1 p))) e,
        inr (refl, refl),
      )
    ];
  }

  pub status_at-update :
      (j : String)
      → status_at j (update i set rows)
        ≡ (if i == j then some (status_of (set row)) else status_at j rows)
  status_at-update j = elim (Bool-cases (i == j)) [
    | inl same ↦ rw same (
        rw (← (eq_iff i j).0 same)
          (ap (Option.map status_of) (by_id-update_self i set rows row keeps found)))
    | inr other ↦ rw other (
        ap (Option.map status_of) (by_id-update_ne i j set rows keeps (λ p. cc ((eq_iff i j).1 p))))
  ]

module _ (new : Row) (rows : List Row) (free : by_id new.id rows ≡ none) where
  pub append-Evolves : Distinct rows → Evolves rows (rows ++ new ∷ [])
  append-Evolves d = record {
    distinct = append-Distinct new rows free d;
    newer = λ j r e. (r, ground (arith, by_id-append j rows new), inr (refl, refl));
  }

  pub status_at-append :
      (j : String)
      → status_at j (rows ++ new ∷ [])
        ≡ (if new.id == j then some (status_of new) else status_at j rows)
  status_at-append j = ground (arith, by_id-append j rows new, eq_iff new.id j)
