-- ===== src/Attendance/Types.antt =====
-- The three tables of attendance in api/src/db/schema.ts, what the service of codes answers, and the
-- steps of a call: api/src/services/attendance.ts.
use citynode_app.Prelude.{ℕ, String, Bool, false, Option, List, [], ◌∷◌, if◌then◌else◌, ◌||◌, any}

pub record CheckIn : Type 0 where
  pub organization_id : String
  pub code_id : String
  pub user_id : String
  pub event_id : Option String
  pub event_name : String
  pub community_name : String
  pub classified : Bool
  pub checked_in_at : ℕ
  pub recorded_at : ℕ

pub record Checkpoint : Type 0 where
  pub organization_id : String
  pub code_id : String
  pub used_count : ℕ
  pub reconciled_at : ℕ

pub record Reconciliation : Type 0 where
  pub organization_id : String
  pub event_id : String
  pub truncated : Bool
  pub failed : Bool
  pub reconciled_at : ℕ

pub record AttendanceDb : Type 0 where
  pub check_ins : List CheckIn
  pub checkpoints : List Checkpoint
  pub reconciliations : List Reconciliation

pub record CommunityEvent : Type 0 where
  pub id : String
  pub title : String
  pub starts_at : Option String

pub record UpstreamCode : Type 0 where
  pub id : String
  pub event_id : Option String
  pub used_count : ℕ

pub record Join : Type 0 where
  pub user_id : String
  pub created_at : ℕ

pub record CodeStatus : Type 0 where
  pub event_id : Option String
  pub event_name : String
  pub joined : List Join

-- a list of codes, an access error, or another failure
pub data CodesAnswer : Type 0 where
  listed : List UpstreamCode → CodesAnswer
  denied unavailable : CodesAnswer

pub record Upstream : Type 0 where
  pub list_codes : Option String → CodesAnswer
  pub code_status : String → Option CodeStatus

pub data AttendanceError : Type 0 where
  forbidden database : AttendanceError

pub data Answer {ℓ} (A : Type ℓ) : Type ℓ where
  ok : A → Answer A
  err : AttendanceError → Answer A

-- What a step answers, and the tables that it leaves; each write commits on its own, so a call that
-- fails keeps the writes that it has made.
abbrev pub Step {ℓ} : Type ℓ → Type ℓ
Step A = AttendanceDb → Answer A × AttendanceDb

abbrev pub continue_with {ℓ κ} :
    {A : Type ℓ} {B : Type κ} → Answer A × AttendanceDb → (A → Step B) → Answer B × AttendanceDb
continue_with (ok a, db) f = f a db
continue_with (err e, db) f = (err e, db)

infixl 5 ◌>>=◌
unfoldable pub ◌>>=◌ {ℓ κ} : {A : Type ℓ} {B : Type κ} → Step A → (A → Step B) → Step B
(m >>= f) db = continue_with (m db) f

abbrev pub answer {ℓ} : {A : Type ℓ} → A → Step A
answer a db = (ok a, db)

abbrev pub fail {ℓ} : {A : Type ℓ} → AttendanceError → Step A
fail e db = (err e, db)

-- Effect.forEach, one after the other
unfoldable pub for_each {ℓ κ} : {A : Type ℓ} {B : Type κ} → List A → (A → Step B) → Step (List B)
unfolding ◌>>=◌
for_each [] f = answer []
for_each (x ∷ xs) f = f x >>= λ b. for_each xs f >>= λ bs. answer (b ∷ bs)

-- insert … on conflict do update, of one row
unfoldable pub upsert {ℓ} :
    {Row : Type ℓ} → (Row → Row → Bool) → (Row → Row → Row) → Row → List Row → List Row
upsert same merge new [] = new ∷ []
upsert same merge new (row ∷ rows) =
    if same row new then merge row new ∷ rows else row ∷ upsert same merge new rows

unfoldable pub upsert_each {ℓ} :
    {Row : Type ℓ} → (Row → Row → Bool) → (Row → Row → Row) → List Row → List Row → List Row
unfolding upsert
upsert_each same merge [] rows = rows
upsert_each same merge (new ∷ news) rows = upsert_each same merge news (upsert same merge new rows)

-- a statement cannot update one row twice
unfoldable pub repeats {ℓ} : {Row : Type ℓ} → (Row → Row → Bool) → List Row → Bool
repeats same [] = false
repeats same (row ∷ rows) = any (same row) rows || repeats same rows
