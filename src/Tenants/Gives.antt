-- ===== src/Tenants/Gives.antt =====
-- A predicate on what a call of api/src/services/tenants.ts answers when it does not fail.
use citynode_app.Prelude.{◌≡◌, refl, subst, Bool, true, false, Option, none, some, if◌then◌else◌}
use citynode_app.Tenants.Types.{
  TenantsError, TenantsResult, ok, err, ◌>>=◌, ◌>>◌, require, found_or,
}

unfoldable pub Gives {ℓ κ} : {A : Type ℓ} → (A → Type κ) → TenantsResult A → Type κ
Gives P (ok a) = P a
Gives P (err e) = Unit

pub Gives-ok {ℓ κ} : {A : Type ℓ} (P : A → Type κ) (a : A) → P a → Gives P (ok a)
unfolding Gives
Gives-ok P a h = h

pub Gives-bind {ℓ κ μ ν} :
    {A : Type ℓ} {B : Type κ} (P : A → Type μ) (Q : B → Type ν) (r : TenantsResult A)
    (f : A → TenantsResult B)
    → Gives P r
    → ((a : A) → P a → Gives Q (f a))
    → Gives Q (r >>= f)
unfolding Gives
Gives-bind P Q (ok a) f h k = k a h
Gives-bind P Q (err e) f h k = tt

pub Gives-require {κ ν} :
    {B : Type κ} (Q : B → Type ν) (b : Bool) (e : TenantsError) (r : TenantsResult B)
    → (b ≡ true → Gives Q r)
    → Gives Q (require b e >> r)
unfolding Gives
Gives-require Q true e r k = k refl
Gives-require Q false e r k = tt

pub Gives-found {ℓ κ ν} :
    {A : Type ℓ} {B : Type κ} (Q : B → Type ν) (o : Option A) (e : TenantsError)
    (f : A → TenantsResult B)
    → ((a : A) → o ≡ some a → Gives Q (f a))
    → Gives Q (found_or o e >>= f)
unfolding Gives
Gives-found Q none e f k = tt
Gives-found Q (some a) e f k = k a refl

pub Gives-if {κ ν} :
    {B : Type κ} (Q : B → Type ν) (b : Bool) (r s : TenantsResult B)
    → Gives Q r
    → Gives Q s
    → Gives Q (if b then r else s)
unfolding Gives
Gives-if Q true r s h k = h
Gives-if Q false r s h k = k

pub Gives-any {ℓ} : {A : Type ℓ} (r : TenantsResult A) → Gives (λ a. Unit {0}) r
unfolding Gives
Gives-any (ok a) = tt
Gives-any (err e) = tt

pub Gives-mono {ℓ κ μ} :
    {A : Type ℓ} (P : A → Type κ) (Q : A → Type μ) (r : TenantsResult A)
    → ((a : A) → P a → Q a)
    → Gives P r
    → Gives Q r
unfolding Gives
Gives-mono P Q (ok a) f h = f a h
Gives-mono P Q (err e) f h = tt

pub Gives-guard {ℓ κ} :
    {B : Type ℓ} (Q : B → Type κ) (guard : TenantsResult (Unit {0})) (r : TenantsResult B)
    → Gives Q r
    → Gives Q (guard >> r)
unfolding Gives
Gives-guard Q (ok u) r h = h
Gives-guard Q (err e) r h = tt

pub Gives-eq-ok {ℓ κ} :
    {A : Type ℓ} (P : A → Type κ) (r : TenantsResult A) (a : A) → Gives P r → r ≡ ok a → P a
unfolding Gives
Gives-eq-ok P (ok b) a h e = let same : b ≡ a = cc in subst P same h
Gives-eq-ok P (err failure) a h e = cc

pub Gives-either {κ ν} :
    {B : Type κ} (Q : B → Type ν) (b : Bool) (r s : TenantsResult B)
    → (b ≡ true → Gives Q r)
    → (b ≡ false → Gives Q s)
    → Gives Q (if b then r else s)
Gives-either Q true r s h k = h refl
Gives-either Q false r s h k = k refl
