-- ===== src/Tenants/Primary.antt =====
-- The primary binding of a tenant: setPrimaryBinding of api/src/services/tenants.ts clears the others
-- first.
use citynode_app.Prelude.{
  ◌≡◌, refl, inl, inr, ℕ, String, Bool, true, false, some, List, [], ◌∷◌, arith, ◌==◌, eq_iff, ◌&&◌,
  ◌||◌, not, Bool-cases, any, find, filter, All, if◌then◌else◌,
}
use citynode_app.Tenants.Types.{Binding, TenantsDb, TenantsEnv, ok}
use citynode_app.Tenants.Rows.{distinct, set_where, update_rows, binding_clash}
use citynode_app.Tenants.Bindings.{
  set_primary_binding, is_binding, other_binding, has_id, secondary, primary,
}
use citynode_app.Tenants.Sound.{IsSound}

module _ {ℓ} {Row : Type ℓ} (clash : Row → Row → Bool) (fits : Row → Bool) (chosen : Row → Bool)
    (set : Row → Row) where
  -- the row after the update
  abbrev updated : Row → Row
  updated row = if chosen row then set row else row

  -- no two rows that fit clash after the update that did not before
  abbrev NoNewClash : Type ℓ
  NoNewClash =
      (a b : Row)
      → fits a ≡ true
      → fits b ≡ true
      → clash a b ≡ false
      → clash (updated a) (updated b) ≡ false

  free-set_where :
      (row : Row) (rows : List Row)
      → NoNewClash
      → fits row ≡ true
      → All (λ r. fits r ≡ true) rows
      → any (clash row) rows ≡ false
      → any (clash (updated row)) (set_where chosen set rows) ≡ false
  unfolding set_where
  free-set_where row [] k f h free = refl
  free-set_where row (r ∷ rows) k f h free =
      let rest = free-set_where row rows k f h.1 in ground (arith, k row r f h.0, rest)

  distinct-set_where :
      (rows : List Row)
      → NoNewClash
      → All (λ r. fits r ≡ true) rows
      → distinct clash rows ≡ true
      → distinct clash (set_where chosen set rows) ≡ true
  unfolding distinct set_where
  distinct-set_where [] k h d = refl
  distinct-set_where (row ∷ rows) k h d =
      let rest = distinct-set_where rows k h.1 in
      let free = free-set_where row rows k h.0 h.1 in ground (arith, rest, free)

update_rows-IsOk {ℓ} :
    {Row : Type ℓ} (clash : Row → Row → Bool) (chosen : Row → Bool) (set : Row → Row)
    (rows : List Row)
    → distinct clash (set_where chosen set rows) ≡ true
    → update_rows clash chosen set rows ≡ ok (set_where chosen set rows)
unfolding update_rows
update_rows-IsOk clash chosen set rows d = rw d refl

-- the row of the identifier is the tenant's
abbrev owner_fits : String → String → Binding → Bool
owner_fits t i b = not (b.id == i) || b.tenant_id == t

-- and the tenant has no other primary row
abbrev primary_fits : String → String → Binding → Bool
primary_fits t i b = owner_fits t i b && (not (b.tenant_id == t && b.is_primary) || b.id == i)

clear_clash :
    (t i : String) (now : ℕ)
    → NoNewClash binding_clash (owner_fits t i) (other_binding t i) (secondary now)
clear_clash t i now a b f g free = ground arith

primary_clash :
    (t i : String) (now : ℕ) → NoNewClash binding_clash (primary_fits t i) (has_id i) (primary now)
primary_clash t i now a b f g free = ground (
  arith,
  eq_iff a.tenant_id t,
  eq_iff b.tenant_id t,
  eq_iff a.id i,
  eq_iff b.id i,
  eq_iff a.id b.id,
  eq_iff a.tenant_id b.tenant_id,
)

cleared-fits :
    (t i : String) (now : ℕ) (rows : List Binding)
    → All (λ b. owner_fits t i b ≡ true) rows
    → All (λ b. primary_fits t i b ≡ true) (set_where (other_binding t i) (secondary now) rows)
unfolding set_where
cleared-fits t i now [] h = tt
cleared-fits t i now (b ∷ rows) h = (ground arith, cleared-fits t i now rows h.1)

-- A row that clashes with none has another identifier than all.
others-fit :
    (t i : String) (b : Binding) (rows : List Binding)
    → (b.id == i) ≡ true
    → any (binding_clash b) rows ≡ false
    → All (λ c. owner_fits t i c ≡ true) rows
others-fit t i b [] e free = tt
others-fit t i b (c ∷ rows) e free = (
  ground (arith, eq_iff b.id i, eq_iff c.id i, eq_iff b.id c.id),
  others-fit t i b rows e (ground arith),
)

-- The row that is found has what is asked for, and clashes with none where none does.
pub found_lem {ℓ} :
    {A : Type ℓ} (p q : A → Bool) (rows : List A) (a : A)
    → find p rows ≡ some a
    → any q rows ≡ false
    → (p a ≡ true) × (q a ≡ false)
found_lem p q [] a e free = cc
found_lem p q (row ∷ rows) a e free = ground (arith, found_lem p q rows a)

owners-fit :
    (t i : String) (rows : List Binding) (b : Binding)
    → distinct binding_clash rows ≡ true
    → find (is_binding t i) rows ≡ some b
    → All (λ c. owner_fits t i c ≡ true) rows
unfolding distinct
owners-fit t i [] b d e = tt
owners-fit t i (c ∷ rows) b d e = elim (Bool-cases (is_binding t i c)) [
  | inl hit ↦ (ground arith, others-fit t i c rows (ground arith) (ground arith))
  | inr miss ↦
      let unique : distinct binding_clash rows ≡ true = ground arith in
      let free : any (binding_clash c) rows ≡ false = ground arith in
      let later : find (is_binding t i) rows ≡ some b = rw miss at e in
      let (hit, other) = found_lem (is_binding t i) (binding_clash c) rows b later free in
      (
        ground (arith, eq_iff c.id i, eq_iff b.id i, eq_iff c.id b.id),
        owners-fit t i rows b unique later,
      )
]

-- the tables that the call leaves
abbrev with_primary : String → String → ℕ → List Binding → List Binding
with_primary t i now rows =
    set_where (has_id i) (primary now) (set_where (other_binding t i) (secondary now) rows)

-- of the tenant, the one binding is primary and the others are not
abbrev pub OnlyPrimary : String → String → Binding → Type 0
OnlyPrimary t i b = b.tenant_id ≡ t → b.is_primary ≡ (b.id == i)

with_primary-OnlyPrimary :
    (t i : String) (now : ℕ) (rows : List Binding)
    → All (OnlyPrimary t i) (with_primary t i now rows)
unfolding set_where
with_primary-OnlyPrimary t i now [] = tt
with_primary-OnlyPrimary t i now (b ∷ rows) =
    (λ same. ground (arith, eq_iff b.tenant_id t), with_primary-OnlyPrimary t i now rows)

abbrev pub of_others : String → List Binding → List Binding
of_others t rows = filter (λ (b : Binding). not (b.tenant_id == t)) rows

others_stay :
    (t i : String) (now : ℕ) (rows : List Binding)
    → All (λ b. owner_fits t i b ≡ true) rows
    → of_others t (with_primary t i now rows) ≡ of_others t rows
unfolding set_where
others_stay t i now [] h = refl
others_stay t i now (b ∷ rows) h =
    let rest = others_stay t i now rows h.1 in ground (arith, h.0, rest)

-- In sound tables, making a stored binding of a tenant its primary one never meets the index of
-- primary bindings: the call answers with that binding as primary, of the tenant's bindings it alone
-- is primary afterwards, and the bindings of other tenants and the other tables stay as they were.
pub set_primary_binding_lem :
    (t i : String) (env : TenantsEnv) (db : TenantsDb) (b : Binding)
    → IsSound db
    → find (is_binding t i) db.bindings ≡ some b
    → (after : List Binding) × (set_primary_binding t i env db
        ≡ ok (primary env.now b, record db { bindings = after }))
      × All (OnlyPrimary t i) after
      × (of_others t after ≡ of_others t db.bindings)
unfolding set_primary_binding
set_primary_binding_lem t i env db b s found =
    let owners = owners-fit t i db.bindings b s.hosts found in
    let cleared = set_where (other_binding t i) (secondary env.now) db.bindings in
    let d =
      distinct-set_where binding_clash (owner_fits t i) (other_binding t i) (secondary env.now)
        db.bindings (clear_clash t i env.now) owners s.hosts in
    let d2 =
      distinct-set_where binding_clash (primary_fits t i) (has_id i) (primary env.now) cleared
        (primary_clash t i env.now) (cleared-fits t i env.now db.bindings owners) d in
    (
      with_primary t i env.now db.bindings,
      rw
          (
            found,
            update_rows-IsOk binding_clash (other_binding t i) (secondary env.now) db.bindings d,
            update_rows-IsOk binding_clash (has_id i) (primary env.now) cleared d2,
          )
          refl,
      with_primary-OnlyPrimary t i env.now db.bindings,
      others_stay t i env.now db.bindings owners,
    )
