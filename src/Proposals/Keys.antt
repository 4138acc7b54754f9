-- ===== src/Proposals/Keys.antt =====
-- The laws of the table operations: what a key reads after an update or an insert.
use citynode_app.Prelude.{
  String, ◌≡◌, ◌≢◌, refl, false, none, some, List, [], ◌∷◌, ◌++◌, arith, ◌==◌, eq_iff, eq_refl,
  if◌then◌else◌, any, Bool-cases, inl, inr,
}
use citynode_app.Proposals.Types.{Row}
use citynode_app.Proposals.Table.{conflicts, by_id, select, update, insert_row}

-- The primary keys differ.
abbrev pub Distinct : List Row → Type 0
Distinct [] = Unit
Distinct (r ∷ rs) = (by_id r.id rs ≡ none) × Distinct rs

abbrev pub KeepsId : (Row → Row) → Type 0
KeepsId set = (r : Row) → (set r).id ≡ r.id

pub by_id-id : (i : String) (rows : List Row) (r : Row) → by_id i rows ≡ some r → r.id ≡ i
unfolding by_id
by_id-id i [] r e = cc
by_id-id i (s ∷ rows) r e = ground (arith, eq_iff s.id i, by_id-id i rows r)

pub by_id-update_self :
    (i : String) (set : Row → Row) (rows : List Row) (r : Row)
    → KeepsId set
    → by_id i rows ≡ some r
    → by_id i (update i set rows) ≡ some (set r)
unfolding by_id update
by_id-update_self i set [] r k e = cc
by_id-update_self i set (s ∷ rows) r k e =
    ground (arith, eq_iff s.id i, eq_iff (set s).id i, k s, by_id-update_self i set rows r k)

pub by_id-update_ne :
    (i j : String) (set : Row → Row) (rows : List Row)
    → KeepsId set
    → i ≢ j
    → by_id j (update i set rows) ≡ by_id j rows
unfolding by_id update
by_id-update_ne i j set [] k ne = refl
by_id-update_ne i j set (s ∷ rows) k ne = ground (
  arith,
  eq_iff s.id i,
  eq_iff s.id j,
  eq_iff (set s).id j,
  k s,
  by_id-update_ne i j set rows k ne,
)

by_id-update-none :
    (i j : String) (set : Row → Row) (rows : List Row)
    → KeepsId set
    → by_id j rows ≡ none
    → by_id j (update i set rows) ≡ none
unfolding by_id update
by_id-update-none i j set [] k e = refl
by_id-update-none i j set (s ∷ rows) k e = ground (
  arith,
  eq_iff s.id i,
  eq_iff s.id j,
  eq_iff (set s).id j,
  k s,
  by_id-update-none i j set rows k,
)

pub update-Distinct :
    (i : String) (set : Row → Row) (rows : List Row)
    → KeepsId set
    → Distinct rows
    → Distinct (update i set rows)
unfolding update
update-Distinct i set [] k d = tt
update-Distinct i set (s ∷ rows) k d = elim (Bool-cases (s.id == i)) [
  | inl e ↦ rw (e, update) (rw (k s) d.0, d.1)
  | inr e ↦
      rw (e, update) (by_id-update-none i s.id set rows k d.0, update-Distinct i set rows k d.1)
]

pub by_id-append :
    (j : String) (rows : List Row) (new : Row)
    → by_id j (rows ++ new ∷ [])
      ≡ elim (by_id j rows) [ some r ↦ some r | none ↦ if new.id == j then some new else none ]
unfolding by_id
by_id-append j [] new = refl
by_id-append j (s ∷ rows) new = ground (arith, by_id-append j rows new)

free_by_id :
    (new : Row) (rows : List Row) → any (conflicts new) rows ≡ false → by_id new.id rows ≡ none
unfolding by_id
free_by_id new [] e = refl
free_by_id new (s ∷ rows) e = ground (arith, free_by_id new rows)

-- An insert succeeds only where its primary key is free, and appends.
pub insert_row_inv :
    (new : Row) (rows rows' : List Row)
    → insert_row new rows ≡ some rows'
    → (by_id new.id rows ≡ none) × (rows' ≡ rows ++ new ∷ [])
unfolding insert_row
insert_row_inv new rows rows' e = ground (arith, free_by_id new rows)

pub append-Distinct :
    (new : Row) (rows : List Row)
    → by_id new.id rows ≡ none
    → Distinct rows
    → Distinct (rows ++ new ∷ [])
unfolding by_id
append-Distinct new [] e d = (refl, tt)
append-Distinct new (s ∷ rows) e d = ground (
  arith,
  append-Distinct new rows,
  by_id-append s.id rows new,
  eq_iff s.id new.id,
  eq_iff new.id s.id,
)

-- A row that a select by key returns is the row of its primary key.
pub by_id-select :
    (plugin entity : String) (rows : List Row) (r : Row)
    → Distinct rows
    → select plugin entity rows ≡ some r
    → by_id r.id rows ≡ some r
unfolding select by_id
by_id-select plugin entity [] r d e = cc
by_id-select plugin entity (s ∷ rows) r d e =
    ground (arith, by_id-select plugin entity rows r d.1, eq_iff s.id r.id, eq_refl s.id)

-- What a select by key and an update of its columns keep apart.
pub record KeepsKeys (set : Row → Row) : Type 0 where
  pub id : KeepsId set
  pub plugin_id : (r : Row) → (set r).plugin_id ≡ r.plugin_id
  pub entity_id : (r : Row) → (set r).entity_id ≡ r.entity_id

pub select-update_self :
    (plugin entity : String) (set : Row → Row) (rows : List Row) (r : Row)
    → KeepsKeys set
    → Distinct rows
    → select plugin entity rows ≡ some r
    → select plugin entity (update r.id set rows) ≡ some (set r)
unfolding select update
select-update_self plugin entity set [] r k d e = cc
select-update_self plugin entity set (s ∷ rows) r k d e = ground (
  arith,
  k.plugin_id s,
  k.entity_id s,
  eq_refl s.id,
  eq_iff s.id r.id,
  by_id-select plugin entity rows r d.1,
  select-update_self plugin entity set rows r k d.1,
)
