-- ===== src/Geography/Results.antt =====
-- Inversion of the results of api/src/services/nodes.ts and validators.ts.
use citynode_app.Prelude.{
  ◌≡◌, refl, Bool, true, false, Option, none, some, List, Bool-cases, inl, inr,
}
use citynode_app.Geography.Types.{
  Node, GeoError, GeoResult, ok, err, ◌>>=◌, ◌>>◌, require, found_or,
}
use citynode_app.Geography.Nodes.{checked_nodes, slugs_unique}

-- The row that a step passed on to the next, which then answered.
pub >>=-eq-ok {ℓ κ} :
    {Row : Type ℓ} {Answer : Type κ} (step : GeoResult Row) (next : Row → GeoResult Answer)
    {answer : Answer}
    → step >>= next ≡ ok answer
    → (row : Row) × (step ≡ ok row) × (next row ≡ ok answer)
>>=-eq-ok (err failure) next h = cc
>>=-eq-ok (ok row) next h = (row, refl, h)

pub >>-eq-ok {κ} :
    {Answer : Type κ} (guards : GeoResult (Unit {0})) (then : GeoResult Answer) {answer : Answer}
    → guards >> then ≡ ok answer
    → (guards ≡ ok tt) × (then ≡ ok answer)
>>-eq-ok (err failure) then h = cc
>>-eq-ok (ok tt) then h = (refl, h)

pub require-eq-ok : (b : Bool) (e : GeoError) {u : Unit {0}} → require b e ≡ ok u → b ≡ true
require-eq-ok true e h = refl
require-eq-ok false e h = cc

pub found_or-eq-ok {ℓ} :
    {A : Type ℓ} (o : Option A) (e : GeoError) {a : A} → found_or o e ≡ ok a → o ≡ some a
found_or-eq-ok none e h = cc
found_or-eq-ok (some b) e h = cc

pub ok-injective {ℓ} : {A : Type ℓ} {a b : A} → ok a ≡ ok b → a ≡ b
ok-injective h = cc

pub checked_nodes-eq-ok :
    (rows nodes : List Node)
    → checked_nodes rows ≡ ok nodes
    → (rows ≡ nodes) × (slugs_unique rows ≡ true)
unfolding checked_nodes
checked_nodes-eq-ok rows nodes h = elim (Bool-cases (slugs_unique rows)) [
  | inl unique ↦ (ok-injective (rw unique at h), unique)
  | inr clash ↦ cc (rw clash at h)
]
