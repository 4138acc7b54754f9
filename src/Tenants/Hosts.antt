-- ===== src/Tenants/Hosts.antt =====
-- The host names as a map to their bindings, and what the calls on bindings of
-- api/src/services/tenants.ts do to it.
use citynode_app.Prelude.{
  ◌≡◌, refl, sym, ap, ◌∙◌, inl, inr, String, true, false, Option, none, some, List, arith, ◌==◌,
  eq_iff, not, Bool-cases, any, find, filter, if◌then◌else◌,
}
use citynode_app.Tenants.Types.{
  Binding, TenantsDb, TenantsEnv, TenantsResult, ok, err, ◌>>=◌, ◌>>◌, require, tenant_not_found,
  binding_not_found, txt_record_not_found, reference_violation,
}
use citynode_app.Tenants.Rows.{
  distinct, insert_row, update_rows, insert_binding, binding_clash, tenant_stored,
}
use citynode_app.Tenants.Bindings.{
  CreateBindingInput, created_binding, create_binding, host_in_use, is_binding, verified,
  verified_binding, verify_domain, set_binding, delete_binding, set_primary_binding, secondary,
  primary, other_binding, has_id, domain_proved, resolve_binding_by_hostname,
}
use citynode_app.Tenants.Gives.{
  Gives, Gives-ok, Gives-bind, Gives-require, Gives-found, Gives-either, Gives-eq-ok,
}
use citynode_app.Tenants.Sound.{IsSound, update_rows-IsDistinct}
use citynode_app.Tenants.BindingsSound.{host_in_use-Gives}
use citynode_app.Tenants.Finds.{
  has_host, mapped, find-set_where, kept_unless, find-filter, find-snoc, id_unique,
  mapped-pointwise, insert_row-free, found_sat, mapped-id,
}

-- The calls on bindings.
pub data HostCall : Type 0 where
  create_host : CreateBindingInput → HostCall
  verify_host delete_host make_primary : String → String → HostCall

module _ (domains : List String) (txt_records : String → List String) (env : TenantsEnv) where
  abbrev tables_of {ℓ} : {A : Type ℓ} → TenantsResult (A × TenantsDb) → TenantsResult TenantsDb
  tables_of r = r >>= λ (a, after). ok after

  unfoldable pub perform_host : HostCall → TenantsDb → TenantsResult TenantsDb
  unfolding create_binding verify_domain delete_binding set_primary_binding
  perform_host (create_host input) db = tables_of (create_binding domains input env db)
  perform_host (verify_host t i) db = tables_of (verify_domain txt_records t i env db)
  perform_host (delete_host t i) db = delete_binding t i db
  perform_host (make_primary t i) db = tables_of (set_primary_binding t i env db)

  abbrev pub verified_if_new : Binding → Binding
  verified_if_new b = if b.is_verified then b else verified env.now b

  abbrev pub cleared_or_primary : String → String → Binding → Binding
  cleared_or_primary t i b =
      if b.id == i then primary env.now b else if b.tenant_id == t then secondary env.now b else b

  -- what a call makes of the binding of a host name, in the map of host names alone
  abbrev pub host_after : HostCall → String → Option Binding → Option Binding
  host_after (create_host input) host current =
      if input.hostname == host then some (created_binding domains input env) else current
  host_after (verify_host t i) host current =
      mapped (λ b. if is_binding t i b then verified_if_new b else b) current
  host_after (delete_host t i) host current = kept_unless (is_binding t i) current
  host_after (make_primary t i) host current = mapped (cleared_or_primary t i) current

  -- the map of the tables after a call
  abbrev pub Maps : HostCall → TenantsDb → TenantsDb → Type 0
  Maps call db after =
      (host : String)
      → resolve_binding_by_hostname host after
        ≡ host_after call host (resolve_binding_by_hostname host db)

  create-Maps :
      (input : CreateBindingInput) (db : TenantsDb)
      → Gives
          (λ (row, after). Maps (create_host input) db after)
          (create_binding domains input env db)
  unfolding create_binding insert_binding resolve_binding_by_hostname
  create-Maps input db =
      let row = created_binding domains input env in
      let Q : Binding × TenantsDb → Type 0 = λ (row, after). Maps (create_host input) db after in
      let P : TenantsDb → Type 0 = λ after. Maps (create_host input) db after in
      Gives-bind P Q
        (require (tenant_stored input.tenant_id db.tenants) tenant_not_found
          >> host_in_use (insert_binding row db))
        _
        (Gives-require P (tenant_stored input.tenant_id db.tenants) tenant_not_found
          (host_in_use (insert_binding row db))
          (λ stored. host_in_use-Gives P (insert_binding row db) (
            Gives-bind _ P (insert_row binding_clash row db.bindings) _
              (insert_row-free binding_clash row db.bindings)
              (λ rows (same, free).
                Gives-require P (tenant_stored row.tenant_id db.tenants) reference_violation
                  (ok (record db { bindings = rows }))
                  (λ known.
                    Gives-ok P (record db { bindings = rows })
                      (λ host.
                        ap (find (has_host host)) same ∙ find-snoc host db.bindings row free))))))
        (λ after h. Gives-ok Q (row, after) h)

  delete-Maps :
      (t i : String) (db : TenantsDb)
      → IsSound db
      → Gives (Maps (delete_host t i) db) (delete_binding t i db)
  unfolding delete_binding resolve_binding_by_hostname
  delete-Maps t i db s =
      Gives-require (Maps (delete_host t i) db) (any (is_binding t i) db.bindings) binding_not_found
        (ok (record db { bindings = filter (λ b. not (is_binding t i b)) db.bindings }))
        (λ found.
          Gives-ok (Maps (delete_host t i) db) _
            (λ host. find-filter host (is_binding t i) db.bindings s.hosts))

  primary_of_parts :
      (t i : String) (o : Option Binding)
      → mapped
          (λ c. if has_id i c then primary env.now c else c)
          (mapped (λ c. if other_binding t i c then secondary env.now c else c) o)
        ≡ mapped (cleared_or_primary t i) o
  primary_of_parts t i none = refl
  primary_of_parts t i (some b) = ground arith

  make_primary-Maps :
      (t i : String) (db : TenantsDb)
      → Gives (λ (row, after). Maps (make_primary t i) db after) (set_primary_binding t i env db)
  unfolding set_primary_binding resolve_binding_by_hostname
  make_primary-Maps t i db =
      let Q : Binding × TenantsDb → Type 0 = λ (row, after). Maps (make_primary t i) db after in
      Gives-found Q (find (is_binding t i) db.bindings) binding_not_found _ (λ b found.
        Gives-bind _ Q
          (update_rows binding_clash (other_binding t i) (secondary env.now) db.bindings) _
          (update_rows-IsDistinct binding_clash (other_binding t i) (secondary env.now) db.bindings)
          (λ cleared (same, d).
            Gives-bind _ Q (update_rows binding_clash (has_id i) (primary env.now) cleared) _
              (update_rows-IsDistinct binding_clash (has_id i) (primary env.now) cleared)
              (λ rows (same2, d2).
                Gives-ok Q (primary env.now b, record db { bindings = rows })
                  (λ host.
                    ap (find (has_host host)) same2
                    ∙ find-set_where host (has_id i) (primary env.now) cleared (λ c. refl)
                    ∙ ap
                        (λ rows'.
                          mapped (λ c. if has_id i c then primary env.now c else c)
                            (find (has_host host) rows'))
                        same
                    ∙ ap (mapped (λ c. if has_id i c then primary env.now c else c)) (
                        find-set_where host (other_binding t i) (secondary env.now) db.bindings
                          (λ c. refl))
                    ∙ primary_of_parts t i (find (has_host host) db.bindings)))))

  -- the binding of the call is the only one that the call is about
  the_binding :
      (t i host : String) (rows : List Binding) (b c : Binding)
      → distinct binding_clash rows ≡ true
      → find (is_binding t i) rows ≡ some b
      → find (has_host host) rows ≡ some c
      → is_binding t i c ≡ true
      → b ≡ c
  the_binding t i host rows b c d e f hit =
      let own = found_sat (is_binding t i) rows b e in
      id_unique (is_binding t i) (has_host host) rows b c d e f
        (ground (arith, eq_iff b.id i, eq_iff c.id i))

  abbrev verified_once : String → String → Binding → Binding
  verified_once t i b = if is_binding t i b then verified_if_new b else b

  verified_before :
      (t i : String) (b c : Binding)
      → b.is_verified ≡ true
      → (is_binding t i c ≡ true → b ≡ c)
      → c ≡ verified_once t i c
  verified_before t i b c v k = elim (Bool-cases (is_binding t i c)) [
    | inl hit ↦
        let done : c.is_verified ≡ true = ap (λ (x : Binding). x.is_verified) (sym (k hit)) ∙ v in
        rw (hit, done) refl
    | inr miss ↦ rw miss refl
  ]

  verified_now :
      (t i : String) (b c : Binding)
      → b.is_verified ≡ false
      → (is_binding t i c ≡ true → b ≡ c)
      → (if is_binding t i c then verified env.now c else c) ≡ verified_once t i c
  verified_now t i b c v k = elim (Bool-cases (is_binding t i c)) [
    | inl hit ↦
        let open_yet : c.is_verified ≡ false =
          ap (λ (x : Binding). x.is_verified) (sym (k hit)) ∙ v in
        rw (hit, open_yet) refl
    | inr miss ↦ rw miss refl
  ]

  verify-Maps :
      (t i : String) (db : TenantsDb)
      → IsSound db
      → Gives
          (λ (row, after). Maps (verify_host t i) db after)
          (verify_domain txt_records t i env db)
  unfolding verify_domain verified_binding set_binding resolve_binding_by_hostname
  verify-Maps t i db s =
      let Q : Binding × TenantsDb → Type 0 = λ (row, after). Maps (verify_host t i) db after in
      Gives-found Q (find (is_binding t i) db.bindings) binding_not_found _ (λ b found.
        Gives-either Q b.is_verified (ok (b, db))
          (require (domain_proved txt_records b) txt_record_not_found
            >> set_binding t i (verified env.now) b db)
          (λ done.
            Gives-ok Q (b, db)
              (λ host. mapped-id (verified_once t i) (find (has_host host) db.bindings) (λ c e.
                verified_before t i b c done
                  (the_binding t i host db.bindings b c s.hosts found e))))
          (λ fresh.
            Gives-require Q (domain_proved txt_records b) txt_record_not_found
              (set_binding t i (verified env.now) b db)
              (λ proved.
                Gives-bind _ Q
                  (update_rows binding_clash (is_binding t i) (verified env.now) db.bindings) _
                  (update_rows-IsDistinct binding_clash (is_binding t i) (verified env.now)
                    db.bindings)
                  (λ rows (same, d).
                    Gives-ok Q (verified env.now b, record db { bindings = rows })
                      (λ host.
                        ap (find (has_host host)) same
                        ∙ find-set_where host (is_binding t i) (verified env.now) db.bindings
                            (λ c. refl)
                        ∙ mapped-pointwise _ (verified_once t i) (find (has_host host) db.bindings)
                            (λ c e.
                              verified_now t i b c fresh
                                (the_binding t i host db.bindings b c s.hosts found e)))))))

  tables-Maps :
      (call : HostCall) (db : TenantsDb) (r : TenantsResult (Binding × TenantsDb))
      → Gives (λ (row, after). Maps call db after) r
      → Gives (Maps call db) (tables_of r)
  unfolding Gives
  tables-Maps call db (ok (row, after)) h = h
  tables-Maps call db (err e) h = tt

  perform_host-Maps :
      (call : HostCall) (db : TenantsDb) → IsSound db → Gives (Maps call db) (perform_host call db)
  unfolding perform_host
  perform_host-Maps (create_host input) db s =
      tables-Maps (create_host input) db (create_binding domains input env db)
        (create-Maps input db)
  perform_host-Maps (verify_host t i) db s =
      tables-Maps (verify_host t i) db (verify_domain txt_records t i env db) (verify-Maps t i db s)
  perform_host-Maps (delete_host t i) db s = delete-Maps t i db s
  perform_host-Maps (make_primary t i) db s =
      tables-Maps (make_primary t i) db (set_primary_binding t i env db) (make_primary-Maps t i db)

-- The calls on bindings refine operations on a map from host names to bindings: from sound tables, a
-- call that succeeds makes of the binding that each host name resolves to what the operation makes of
-- it. Creating adds the new binding under its host name alone, deleting removes the one binding,
-- verifying verifies it, and making it primary also makes the tenant's other bindings secondary.
pub perform_host-refines :
    (domains : List String) (txt_records : String → List String) (env : TenantsEnv)
    (call : HostCall) (db after : TenantsDb) (host : String)
    → IsSound db
    → perform_host domains txt_records env call db ≡ ok after
    → resolve_binding_by_hostname host after
      ≡ host_after domains txt_records env call host (resolve_binding_by_hostname host db)
perform_host-refines domains txt_records env call db after host s e =
    Gives-eq-ok (Maps domains txt_records env call db)
      (perform_host domains txt_records env call db) after
      (perform_host-Maps domains txt_records env call db s) e host
