-- ===== src/Geography/Keeps.antt =====
-- The operations of api/src/services/validators.ts keep the table and its index.
use citynode_app.Geography.Validators.{update_validator, clear_defaults, validator_by_id}
use citynode_app.Prelude.{
  ℕ, String, ◌≡◌, refl, ap, ◌∙◌, inl, inr, Bool, false, none, some, List, [], ◌∷◌, ◌++◌, arith,
  ◌==◌, eq_iff, any, Bool-cases,
}
use citynode_app.Geography.Types.{Validator}
use citynode_app.Geography.Defaults.{DistinctIds}

-- Other fields than the identifier may change.
abbrev pub KeepsId : (Validator → Validator) → Type 0
KeepsId set = (v : Validator) → (set v).id ≡ v.id

abbrev pub KeepsNode : (Validator → Validator) → Type 0
KeepsNode set = (v : Validator) → (set v).node_id ≡ v.node_id

by_id-update_ne :
    (i j : String) (set : Validator → Validator) (vs : List Validator)
    → KeepsId set
    → validator_by_id j vs ≡ none
    → validator_by_id j (update_validator i set vs) ≡ none
unfolding validator_by_id update_validator
by_id-update_ne i j set [] k e = refl
by_id-update_ne i j set (v ∷ vs) k e = ground (arith, k v, by_id-update_ne i j set vs k)

pub update-DistinctIds :
    (i : String) (set : Validator → Validator) (vs : List Validator)
    → KeepsId set
    → DistinctIds vs
    → DistinctIds (update_validator i set vs)
unfolding update_validator
update-DistinctIds i set [] k d = tt
update-DistinctIds i set (v ∷ vs) k d = elim (Bool-cases (v.id == i)) [
  | inl hit ↦ rw hit (ap (λ j. validator_by_id j vs) (k v) ∙ d.0, d.1)
  | inr miss ↦ rw miss (by_id-update_ne i v.id set vs k d.0, update-DistinctIds i set vs k d.1)
]

pub by_id-update :
    (i : String) (set : Validator → Validator) (vs : List Validator) (v : Validator)
    → KeepsId set
    → validator_by_id i vs ≡ some v
    → validator_by_id i (update_validator i set vs) ≡ some (set v)
unfolding validator_by_id update_validator
by_id-update i set [] v k e = cc
by_id-update i set (w ∷ vs) v k e = ground (arith, k w, by_id-update i set vs v k)

by_id-clear :
    (j : String) (p : Validator → Bool) (now : ℕ) (vs : List Validator)
    → validator_by_id j vs ≡ none
    → validator_by_id j (clear_defaults p now vs) ≡ none
unfolding validator_by_id clear_defaults
by_id-clear j p now [] e = refl
by_id-clear j p now (v ∷ vs) e = ground (arith, by_id-clear j p now vs)

pub clear-DistinctIds :
    (p : Validator → Bool) (now : ℕ) (vs : List Validator)
    → DistinctIds vs
    → DistinctIds (clear_defaults p now vs)
unfolding clear_defaults
clear-DistinctIds p now [] d = tt
clear-DistinctIds p now (v ∷ vs) d = elim (Bool-cases (p v)) [
  | inl hit ↦ rw hit (by_id-clear v.id p now vs d.0, clear-DistinctIds p now vs d.1)
  | inr miss ↦ rw miss (by_id-clear v.id p now vs d.0, clear-DistinctIds p now vs d.1)
]

by_id-append :
    (j : String) (vs : List Validator) (v : Validator)
    → validator_by_id j vs ≡ none
    → (v.id == j) ≡ false
    → validator_by_id j (vs ++ v ∷ []) ≡ none
unfolding validator_by_id
by_id-append j [] v e ne = ground arith
by_id-append j (w ∷ vs) v e ne = ground (arith, by_id-append j vs v)

pub append-DistinctIds :
    (vs : List Validator) (v : Validator)
    → DistinctIds vs
    → any (λ (w : Validator). w.id == v.id) vs ≡ false
    → DistinctIds (vs ++ v ∷ [])
unfolding validator_by_id
append-DistinctIds [] v d e = (refl, tt)
append-DistinctIds (w ∷ vs) v d e = (
  by_id-append w.id vs v d.0 (ground (arith, eq_iff w.id v.id, eq_iff v.id w.id)),
  append-DistinctIds vs v d.1 (ground arith),
)
