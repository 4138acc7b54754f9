-- ===== src/Attendance/Kept.antt =====
-- What happens to a stored check-in under reconcile of api/src/services/attendance.ts.
use citynode_app.Prelude.{
  ◌≡◌, refl, ap, ◌∙◌, subst, inl, inr, ℕ, true, Option, none, some, List, [], ◌∷◌, map, arith, ◌||◌,
  not, Bool-cases, find,
}
use citynode_app.Attendance.Types.{
  CheckIn, AttendanceDb, UpstreamCode, CodeStatus, Upstream, Answer, ok, err, Step, answer, ◌>>=◌,
  continue_with, for_each, upsert, upsert_each, repeats,
}
use citynode_app.Attendance.Recording.{
  Community, same_check_in, merge_check_in, check_in_of, store_status, store_if_read, record_code,
  is_counted, same_checkpoint, checkpoint_of,
}

abbrev pub stored_as : CheckIn → List CheckIn → Option CheckIn
stored_as key rows = find (λ row. same_check_in row key) rows

-- a later state of a row: it stays classified, and its community and first record stay
abbrev pub IsLater : CheckIn → CheckIn → Type 0
IsLater row later =
    ((not row.classified || later.classified) ≡ true)
    × (later.community_name ≡ row.community_name)
    × (later.recorded_at ≡ row.recorded_at)

abbrev pub IsKept : CheckIn → CheckIn → List CheckIn → Type 0
IsKept key row rows = (later : CheckIn) × (stored_as key rows ≡ some later) × IsLater row later

-- every stored row is kept
unfoldable pub Grown : List CheckIn → List CheckIn → Type 0
Grown before after = (key row : CheckIn) → stored_as key before ≡ some row → IsKept key row after

IsLater-refl : (row : CheckIn) → IsLater row row
IsLater-refl row = (ground arith, refl, refl)

IsLater-trans : (a b c : CheckIn) → IsLater a b → IsLater b c → IsLater a c
IsLater-trans a b c (x, y, z) (u, v, w) = (ground arith, v ∙ y, w ∙ z)

pub Grown-refl : (rows : List CheckIn) → Grown rows rows
unfolding Grown
Grown-refl rows key row e = (row, e, IsLater-refl row)

pub Grown-trans : (a b c : List CheckIn) → Grown a b → Grown b c → Grown a c
unfolding Grown
Grown-trans a b c f g key row e =
    let (later, found, k) = f key row e in
    let (latest, found2, l) = g key later found in
    (latest, found2, IsLater-trans row later latest k l)

IsLater-merge : (row new : CheckIn) → IsLater row (merge_check_in row new)
IsLater-merge row new = (ground arith, refl, refl)

some_injective {ℓ} : {A : Type ℓ} {a b : A} → some a ≡ some b → a ≡ b
some_injective e = cc

-- The key of a merged row is the old one.
upsert-IsKept :
    (new key row : CheckIn) (rows : List CheckIn)
    → stored_as key rows ≡ some row
    → IsKept key row (upsert same_check_in merge_check_in new rows)
unfolding upsert
upsert-IsKept new key row [] e = cc
upsert-IsKept new key row (r ∷ rows) e = elim (Bool-cases (same_check_in r key)) [
  | inl mine ↦
      let same : r ≡ row = some_injective (rw mine at e) in
      elim (Bool-cases (same_check_in r new)) [
        | inl hit ↦
            rw (hit, mine)
              (
                merge_check_in r new,
                refl,
                subst (λ x. IsLater x (merge_check_in r new)) same (IsLater-merge r new),
              )
        | inr miss ↦ rw (miss, mine) (row, ap (λ x. some x) same, IsLater-refl row)
      ]
  | inr other ↦ elim (Bool-cases (same_check_in r new)) [
    | inl hit ↦ rw (hit, other) (row, rw other at e, IsLater-refl row)
    | inr miss ↦ rw (miss, other) (upsert-IsKept new key row rows (rw other at e))
  ]
]

upsert_each-Grown :
    (news rows : List CheckIn) → Grown rows (upsert_each same_check_in merge_check_in news rows)
unfolding upsert_each Grown
upsert_each-Grown [] rows = Grown-refl rows
upsert_each-Grown (new ∷ news) rows =
    let first : List CheckIn = upsert same_check_in merge_check_in new rows in
    Grown-trans rows first (upsert_each same_check_in merge_check_in news first)
      (λ key row e. upsert-IsKept new key row rows e) (upsert_each-Grown news first)

-- whatever it answers, a step keeps the check-ins
unfoldable pub Keeps {ℓ} : {A : Type ℓ} → Step A → Type 0
Keeps m = (db : AttendanceDb) → Grown db.check_ins (m db).1.check_ins

continue-Grown {ℓ κ} :
    {A : Type ℓ} {B : Type κ} (before : List CheckIn) (r : Answer A × AttendanceDb) (f : A → Step B)
    → Grown before r.1.check_ins
    → ((a : A) → Keeps (f a))
    → Grown before (continue_with r f).1.check_ins
unfolding Keeps
continue-Grown before (ok a, db) f h k =
    Grown-trans before db.check_ins (f a db).1.check_ins h (k a db)
continue-Grown before (err e, db) f h k = h

pub Keeps-bind {ℓ κ} :
    {A : Type ℓ} {B : Type κ} (m : Step A) (f : A → Step B)
    → Keeps m
    → ((a : A) → Keeps (f a))
    → Keeps (m >>= f)
unfolding Keeps ◌>>=◌
Keeps-bind m f h k db = continue-Grown db.check_ins (m db) f (h db) k

pub Keeps-answer {ℓ} : {A : Type ℓ} (a : A) → Keeps (answer a)
unfolding Keeps
Keeps-answer a db = Grown-refl db.check_ins

pub for_each-Keeps {ℓ κ} :
    {A : Type ℓ} {B : Type κ} (xs : List A) (f : A → Step B)
    → ((a : A) → Keeps (f a))
    → Keeps (for_each xs f)
unfolding for_each
for_each-Keeps [] f k = Keeps-answer []
for_each-Keeps (x ∷ xs) f k =
    Keeps-bind (f x) _ (k x)
      (λ b. Keeps-bind (for_each xs f) _ (for_each-Keeps xs f k) (λ bs. Keeps-answer (b ∷ bs)))

store_status-Keeps :
    (community : Community) (code : UpstreamCode) (status : CodeStatus) (now : ℕ)
    → Keeps (store_status community code status now)
unfolding Keeps store_status
store_status-Keeps community code status now db =
    let rows = map (check_in_of community code status now) status.joined in
    elim (Bool-cases (repeats same_check_in rows)) [
      | inl twice ↦ rw twice (Grown-refl db.check_ins)
      | inr once ↦ rw once (upsert_each-Grown rows db.check_ins)
    ]

store_if_read-Keeps :
    (community : Community) (code : UpstreamCode) (now : ℕ) (status : Option CodeStatus)
    → Keeps (store_if_read community code now status)
unfolding Keeps
store_if_read-Keeps community code now none db = Grown-refl db.check_ins
store_if_read-Keeps community code now (some status) db =
    store_status-Keeps community code status now db

pub record_code-Keeps :
    (upstream : Upstream) (community : Community) (now : ℕ) (code : UpstreamCode)
    → Keeps (record_code upstream community now code)
unfolding Keeps record_code
record_code-Keeps upstream community now code db =
    elim (Bool-cases (
      is_counted code
        (find (λ c. same_checkpoint c (checkpoint_of community code now)) db.checkpoints))) [
          | inl counted ↦ rw counted (Grown-refl db.check_ins)
          | inr new ↦
              rw new (store_if_read-Keeps community code now (upstream.code_status code.id) db)
        ]
