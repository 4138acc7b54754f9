-- ===== src/Tenants/Recovered.antt =====
-- What applyNodeProposal of api/src/services/tenants.ts answers after a failed transaction.
use citynode_app.Prelude.{◌≡◌, refl, ◌⊎◌, inl, inr, String, Option, none, some}
use citynode_app.Geography.Types.{Node}
use citynode_app.Tenants.Types.{
  TenantsDb, TenantsResult, ok, err, unique_violation, resources_exist, tenant_not_found,
  binding_not_found, parent_not_found, account_taken, slug_taken, hostname_taken, invalid_parent,
  txt_record_not_found, reference_violation,
}
use citynode_app.Tenants.Communities.{recovered}

pub recovered-cases :
    (o : Option Node) (db : TenantsDb) (answer : TenantsResult (String × TenantsDb))
    → (recovered o db answer ≡ answer)
      ⊎ ((recovered o db answer ≡ err resources_exist)
          ⊎ ((n : Node) × (o ≡ some n) × (recovered o db answer ≡ ok (n.id, db))))
recovered-cases (some n) db (err unique_violation) = inr (inr (n, refl, refl))
recovered-cases none db (err unique_violation) = inr (inl refl)
recovered-cases none db (ok a) = inl refl
recovered-cases (some n) db (ok a) = inl refl
recovered-cases none db (err tenant_not_found) = inl refl
recovered-cases none db (err binding_not_found) = inl refl
recovered-cases none db (err parent_not_found) = inl refl
recovered-cases none db (err account_taken) = inl refl
recovered-cases none db (err slug_taken) = inl refl
recovered-cases none db (err hostname_taken) = inl refl
recovered-cases none db (err resources_exist) = inl refl
recovered-cases none db (err invalid_parent) = inl refl
recovered-cases none db (err txt_record_not_found) = inl refl
recovered-cases none db (err reference_violation) = inl refl
recovered-cases (some n) db (err tenant_not_found) = inl refl
recovered-cases (some n) db (err binding_not_found) = inl refl
recovered-cases (some n) db (err parent_not_found) = inl refl
recovered-cases (some n) db (err account_taken) = inl refl
recovered-cases (some n) db (err slug_taken) = inl refl
recovered-cases (some n) db (err hostname_taken) = inl refl
recovered-cases (some n) db (err resources_exist) = inl refl
recovered-cases (some n) db (err invalid_parent) = inl refl
recovered-cases (some n) db (err txt_record_not_found) = inl refl
recovered-cases (some n) db (err reference_violation) = inl refl
